-- ===== src/Dispatch/Call/Runs.antt =====
-- Calls that return a value, taken apart step by step.
use demumumind_panel.Shared.{
  ℕ, suc, if◌then◌else◌, ◌∙◌, Bool, true, false, ◌≡◌, refl, ap, Option, none, some, List, arith,
  Option-cases, inl, inr, sym,
}
use demumumind_panel.Json.{Value}
use demumumind_panel.Errors.{Result, ok, raise}
use demumumind_panel.Cache.{CacheService}
use demumumind_panel.Usage.{UsageRow, record_usage}
use demumumind_panel.Dispatch.{monotonic}
use demumumind_panel.Dispatch.Request.{Task}
use demumumind_panel.Dispatch.Usage.{record_db_usage}
use demumumind_panel.Dispatch.Usage.Laws.{commits, answers_from, record_db_usage_lem}
use demumumind_panel.Dispatch.Call.{
  Setup, Panel, Call, bound, lift, pure, when, ◌>>=◌, request, record_row, write_cache, stored,
}

-- on the state p the call returns a and leaves the state q
abbrev pub Runs : {A : Type 0} → Call A → Panel → A → Panel → Type 0
Runs m p a q = m p ≡ (some (ok a), q)

by_outcome :
    {A B : Type 0} (m : Call A) (f : A → Call B) (p : Panel) {b : B} {q : Panel}
    (o : Option (Result A) × Panel)
    → m p ≡ o
    → bound f o ≡ (some (ok b), q)
    → (a : A) × (p1 : Panel) × Runs m p a p1 × Runs (f a) p1 b q
by_outcome m f p (none, p1) e k = absurd (ground (arith, k))
by_outcome m f p (some (ok a), p1) e k = (a, p1, e, k)
by_outcome m f p (some (raise x), p1) e k = absurd (ground (arith, k))

pub bind-Runs :
    {A B : Type 0} (m : Call A) (f : A → Call B) (p : Panel) {b : B} {q : Panel}
    → Runs (m >>= f) p b q
    → (a : A) × (p1 : Panel) × Runs m p a p1 × Runs (f a) p1 b q
unfolding ◌>>=◌
bind-Runs m f p h = by_outcome m f p (m p) refl h

pub lift-Runs :
    {A : Type 0} (r : Result A) (p : Panel) {a : A} {q : Panel}
    → Runs (lift r) p a q
    → (r ≡ ok a) × (p ≡ q)
lift-Runs (ok a) p h = (cc, cc)
lift-Runs (raise e) p h = absurd (ground arith)

module _ (s : Setup) where
  pub request-Runs :
      (t : Task) (p : Panel) {r : Value × ℕ} {q : Panel}
      → Runs (request s t) p r q
      → q.cache ≡ p.cache
  unfolding request
  request-Runs t p h = ap (λ (o : Option (Result (Value × ℕ)) × Panel). o.1.cache) (sym h)

  pub record_row-Runs :
      (row : UsageRow) (p : Panel) {u : Unit {0}} {q : Panel}
      → Runs (record_row s row) p u q
      → (q.cache ≡ p.cache) × (q.world ≡ p.world)
  unfolding record_row
  record_row-Runs row p {u} {q} h =
      elim (Option-cases (record_db_usage 4 (s.db p.sessions) row 0 p.usage)) [
        | inl out ↦ absurd (none_runs (rw (out, record_row) at h))
        | inr (rows, e) ↦
            let h' = rw (e, record_row) at h in
            (
              ap (λ (o : Option (Result (Unit {0})) × Panel). o.1.cache) (sym h'),
              ap (λ (o : Option (Result (Unit {0})) × Panel). o.1.world) (sym h'),
            )
      ]
    where
      none_runs : ◌≡◌ {A = Option (Result (Unit {0})) × Panel} (none, p) (some (ok u), q) → ⊥
      none_runs k = ground (arith, k)

  stored-Runs :
      (r : Result CacheService) (p : Panel) {u : Unit {0}} {q : Panel}
      → stored s p r ≡ (some (ok u), q)
      → r ≡ ok q.cache
  unfolding stored
  stored-Runs (ok c) p h = ap (λ (o : Option (Result (Unit {0})) × Panel). ok o.1.cache) h
  stored-Runs (raise e) p h = absurd (ground (arith, h))

  pub write_cache-Runs :
      (slot : ℕ → CacheService → Result CacheService) (p : Panel) {u : Unit {0}} {q : Panel}
      → Runs (write_cache s slot) p u q
      → slot (s.env.clock p.world.readings) p.cache ≡ ok q.cache
  unfolding write_cache monotonic
  write_cache-Runs slot p h = stored-Runs _ _ h

pub when-Runs :
    (b : Bool) (m : Call (Unit {0})) (p : Panel) {u : Unit {0}} {q : Panel}
    → b ≡ true
    → Runs (when b m) p u q
    → Runs m p u q
when-Runs true m p e h = h
when-Runs false m p e h = absurd (ground (arith, e))

pub pure-Runs :
    {A : Type 0} (a : A) (p : Panel) {b : A} {q : Panel} → Runs (pure a) p b q → (a ≡ b) × (p ≡ q)
pure-Runs a p h = (cc, cc)

-- the other way: steps that run make a call that runs
pub then-Runs :
    {A B : Type 0} (m : Call A) (f : A → Call B) (p p1 q : Panel) (a : A) (b : B)
    → Runs m p a p1
    → Runs (f a) p1 b q
    → Runs (m >>= f) p b q
unfolding ◌>>=◌
then-Runs m f p p1 q a b h k = ap (bound f) h ∙ k

pub rest-Runs :
    {A B : Type 0} (m : Call A) (f : A → Call B) (p p1 q : Panel) (a : A) (b : B)
    → Runs m p a p1
    → Runs (m >>= f) p b q
    → Runs (f a) p1 b q
unfolding ◌>>=◌
rest-Runs m f p p1 q a b h k = sym (ap (bound f) h) ∙ k

module _ (s : Setup) where
  -- a row is recorded, or dropped, without an exception
  pub record_row-runs :
      (row : UsageRow) (p : Panel)
      → (rows : List UsageRow) × Runs
          (record_row s row)
          p
          tt
          (record p { usage = rows; sessions = suc p.sessions })
  unfolding record_row
  record_row-runs row p =
      let answers = s.db p.sessions in
      let rows = if commits (answers_from 4 answers 0) then record_usage row p.usage else p.usage in
      let e : record_db_usage 4 answers row 0 p.usage ≡ some rows =
        record_db_usage_lem 4 3 answers row 0 p.usage (omega arith) (omega arith) in
      (rows, rw (e, record_row))

-- A part of the panel is left as it is, also by a call that raises.
abbrev pub Keeps : {X A : Type 0} → (Panel → X) → Call A → Type 0
Keeps part m = (p : Panel) → part (m p).1 ≡ part p

module _ {X A B : Type 0} (part : Panel → X) where
  bound-Keeps :
      (f : A → Call B) (o : Option (Result A) × Panel)
      → ((a : A) → Keeps part (f a))
      → part (bound f o).1 ≡ part o.1
  bound-Keeps f (none, p) rest = refl
  bound-Keeps f (some (ok a), p) rest = rest a p
  bound-Keeps f (some (raise e), p) rest = refl

  pub bind-Keeps :
      (m : Call A) (f : A → Call B)
      → Keeps part m
      → ((a : A) → Keeps part (f a))
      → Keeps part (m >>= f)
  unfolding ◌>>=◌
  bind-Keeps m f keeps rest p = bound-Keeps f (m p) rest ∙ keeps p

pub record_row-KeepsCache : (s : Setup) (row : UsageRow) → Keeps (λ p. p.cache) (record_row s row)
record_row-KeepsCache s row p =
    let (rows, h) = record_row-runs s row p in
    ap (λ (o : Option (Result (Unit {0})) × Panel). o.1.cache) h
