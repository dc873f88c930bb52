-- ===== src/Dispatch/Call/Total.antt =====
-- Calls that end, with a value or an exception and never for want of fuel, after a bounded number of
-- requests to the provider.
use demumumind_panel.Shared.{
  ℕ, suc, ◌+◌, ◌-◌, if◌then◌else◌, ◌≤◌, String, ◌≡◌, refl, Bool, true, false, Option, some, arith,
  length, ap, ◌∙◌,
}
use demumumind_panel.Json.{Value}
use demumumind_panel.Errors.{Result, ok, raise}
use demumumind_panel.Cache.{CacheService}
use demumumind_panel.Usage.{UsageRow, record_usage}
use demumumind_panel.Manager.Keys.{active_keys}
use demumumind_panel.Dispatch.{monotonic}
use demumumind_panel.Dispatch.Request.{Task, do_request}
use demumumind_panel.Dispatch.Request.Bound.{key_count, do_request-Returns}
use demumumind_panel.Dispatch.Usage.{record_db_usage}
use demumumind_panel.Dispatch.Usage.Laws.{commits, answers_from, record_db_usage_lem}
use demumumind_panel.Dispatch.Call.{
  Setup, Panel, Call, bound, lift, when, ◌>>=◌, Chat, find_model, request, record_row, read_cache,
  write_cache, stored,
}

-- On each state where `I` holds the call ends, `J` holds then, and at most n requests were sent.
abbrev pub Ends : (I J : Panel → Type 0) → ℕ → {A : Type 0} → Call A → Type 0
Ends I J n {A} m =
    (p : Panel)
    → I p
    → (r : Result A) × (p' : Panel) × (m p ≡ (some r, p'))
      × J p'
      × (length p'.world.sent ≤ length p.world.sent + n)

abbrev pub Anywhere : Panel → Type 0
Anywhere p = Unit {0}

-- no provider has more than k active keys
abbrev pub HasKeys : ℕ → Panel → Type 0
HasKeys k p = (provider_id : String) → length (active_keys provider_id p.world.manager) ≤ k

abbrev Ended : (J : Panel → Type 0) → ℕ → {A : Type 0} → Option (Result A) × Panel → Type 0
Ended J most {A} o =
    (r : Result A) × (p' : Panel) × (o ≡ (some r, p')) × J p' × (length p'.world.sent ≤ most)

module _ {A B : Type 0} (J : Panel → Type 0) where
  after :
      (n : ℕ) (f : A → Call B)
      → ((a : A) → Ends J Anywhere n (f a))
      → (r : Result A) (p : Panel) → J p
      → Ended Anywhere (length p.world.sent + n) (bound f (some r, p))
  after n f ends (ok a) p h = ends a p h
  after n f ends (raise e) p h = (raise e, p, refl, tt, omega arith)

  pub bind-Ends :
      (I : Panel → Type 0) (n k : ℕ) (m : Call A) (f : A → Call B)
      → Ends I J n m
      → ((a : A) → Ends J Anywhere k (f a))
      → Ends I Anywhere (n + k) (m >>= f)
  unfolding ◌>>=◌
  bind-Ends I n k m f ends rest p h =
      let (r, p1, e, j, most) = ends p h in
      let (r', p2, e', _, most') = after k f rest r p1 j in
      (r', p2, ap (bound f) e ∙ e', tt, omega arith)

pub lift-Ends : {A : Type 0} (I : Panel → Type 0) (r : Result A) → Ends I I 0 (lift r)
lift-Ends I r p h = (r, p, refl, h, omega arith)

pub when-Ends :
    (b : Bool) (m : Call (Unit {0}))
    → Ends Anywhere Anywhere 0 m
    → Ends Anywhere Anywhere 0 (when b m)
when-Ends true m ends p h = ends p h
when-Ends false m ends p h = (ok tt, p, refl, h, omega arith)

module _ (s : Setup) where
  pub read_cache-Ends :
      (k : ℕ) (slot : ℕ → CacheService → Option String × CacheService)
      → Ends (HasKeys k) (HasKeys k) 0 (read_cache s slot)
  unfolding read_cache monotonic
  read_cache-Ends k slot p h = (ok _, _, refl, h, omega arith)

  pub find_model-Ends : (I : Panel → Type 0) (c : Chat) → Ends I I 0 (find_model s c)
  unfolding find_model
  find_model-Ends I c p h = (_, p, refl, h, omega arith)

  stored-Ends : (r : Result CacheService) → Ends Anywhere Anywhere 0 (λ p. stored s p r)
  unfolding stored
  stored-Ends (ok cache) p h = (ok tt, _, refl, tt, omega arith)
  stored-Ends (raise e) p h = (raise e, p, refl, tt, omega arith)

  pub write_cache-Ends :
      (slot : ℕ → CacheService → Result CacheService)
      → Ends Anywhere Anywhere 0 (write_cache s slot)
  unfolding write_cache monotonic
  write_cache-Ends slot p h =
      let (now, w) = monotonic s.env p.world in
      stored-Ends (slot now p.cache) (record p { world = w }) tt

  pub record_row-Ends : (row : UsageRow) → Ends Anywhere Anywhere 0 (record_row s row)
  unfolding record_row
  record_row-Ends row p h =
      let answers = s.db p.sessions in
      let rows = if commits (answers_from 4 answers 0) then record_usage row p.usage else p.usage in
      let e : record_db_usage 4 answers row 0 p.usage ≡ some rows =
        record_db_usage_lem 4 3 answers row 0 p.usage (omega arith) (omega arith) in
      (
        ok tt,
        record p { usage = rows; sessions = suc p.sessions },
        rw (e, record_row),
        tt,
        omega arith,
      )

  pub request-Ends : (t : Task) (k : ℕ) → Ends (HasKeys k) Anywhere (1 + (k - 1)) (request s t)
  unfolding request
  request-Ends t k p h =
      let fuel = suc (key_count t p.world) in
      let (r, e, most) = do_request-Returns fuel s.env t 0 p.world (omega arith) (omega arith) in
      let w = (do_request fuel s.env t 0 p.world).1 in
      (
        r,
        record p { world = w },
        ap (λ (o : Option (Result (Value × ℕ))). (o, record p { world = w })) e,
        tt,
        omega (arith, h t.resolved.provider_id),
      )

pub weaken-Ends :
    {A : Type 0} (I J : Panel → Type 0) (n k : ℕ) (m : Call A) → n ≤ k → Ends I J n m → Ends I J k m
weaken-Ends I J n k m le ends p h = let (r, p', e, j, most) = ends p h in (r, p', e, j, omega arith)

-- With nothing more to send.
pub quiet-Ends :
    {A B : Type 0} (m : Call A) (f : A → Call B)
    → Ends Anywhere Anywhere 0 m
    → ((a : A) → Ends Anywhere Anywhere 0 (f a))
    → Ends Anywhere Anywhere 0 (m >>= f)
quiet-Ends m f ends rest p h =
    let (r, p', e, j, most) = bind-Ends Anywhere Anywhere 0 0 m f ends rest p h in
    (r, p', e, j, omega arith)
