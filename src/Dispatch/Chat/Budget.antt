-- ===== src/Dispatch/Chat/Budget.antt =====
-- What a call of `chat_completion` in app/services/dispatch.py does to the budgets that
-- app/services/finops.py checks.
mod Examples
use demumumind_panel.Shared.{
  ℕ, String, ◌≡◌, refl, ap, ◌∙◌, Bool, true, false, Option, none, some, List, ◌==◌, arith, ℤ,
  if◌then◌else◌, Bool-cases, inl, inr,
}
use demumumind_panel.Shared.Dict.{Dict}
use demumumind_panel.Json.{Value, Fields}
use demumumind_panel.Errors.{Result, ok, raise}
use demumumind_panel.Cache.{CacheService}
use demumumind_panel.Manager.{ResolvedModel}
use demumumind_panel.Usage.{UsageRow, key_agent_type, rows_of, check_budget, record_usage}
use demumumind_panel.Usage.Budget.{rows_of-record_usage}
use demumumind_panel.Dispatch.{monotonic}
use demumumind_panel.Dispatch.Usage.{record_db_usage}
use demumumind_panel.Dispatch.Usage.Laws.{commits, answers_from, record_db_usage_lem}
use demumumind_panel.Dispatch.Request.{Task}
use demumumind_panel.Dispatch.Call.{
  Setup, Panel, Call, Chat, lift, when, ◌>>=◌, find_model, request, record_row, free_row,
  read_cache, write_cache, stored,
}
use demumumind_panel.Dispatch.Call.Runs.{Keeps, bind-Keeps}
use demumumind_panel.Dispatch.Prompt.{prompt_of}
use demumumind_panel.Dispatch.Image.{image_generation}
use demumumind_panel.Dispatch.Image.Quiet.{record_image-Keeps}
use demumumind_panel.Dispatch.Chat.{
  image_body, is_cacheable, hit, answered, record_answer, ask, look_up, text_completion, by_kind,
  chat_completion,
}

-- the rows that the check of the key's budget adds up
abbrev pub charged : String → Panel → List UsageRow
charged key_hash p = rows_of key_hash p.usage

unseen :
    (key_hash : String) (row : UsageRow) (b : Bool) (rows : List UsageRow)
    → (row.agent_type == key_agent_type key_hash) ≡ false
    → rows_of key_hash (if b then record_usage row rows else rows) ≡ rows_of key_hash rows
unseen key_hash row true rows h = rw (rows_of-record_usage key_hash row rows, h) refl
unseen key_hash row false rows h = refl

module _ (s : Setup) (key_hash : String) where
  record_row-Charged :
      (row : UsageRow)
      → (row.agent_type == key_agent_type key_hash) ≡ false
      → Keeps (charged key_hash) (record_row s row)
  unfolding record_row
  record_row-Charged row h p =
      let answers = s.db p.sessions in
      let written = commits (answers_from 4 answers 0) in
      let rows = if written then record_usage row p.usage else p.usage in
      let e : record_db_usage 4 answers row 0 p.usage ≡ some rows =
        record_db_usage_lem 4 3 answers row 0 p.usage (omega arith) (omega arith) in
      rw (e, record_row) (unseen key_hash row written p.usage h)

  stored-Charged :
      (q : Panel) (r : Result CacheService) → charged key_hash (stored s q r).1 ≡ charged key_hash q
  unfolding stored
  stored-Charged q (ok cache) = refl
  stored-Charged q (raise e) = refl

  write_cache-Charged :
      (slot : ℕ → CacheService → Result CacheService)
      → Keeps (charged key_hash) (write_cache s slot)
  unfolding write_cache monotonic
  write_cache-Charged slot p = stored-Charged _ _

  when-Charged :
      (b : Bool) (m : Call (Unit {0}))
      → Keeps (charged key_hash) m
      → Keeps (charged key_hash) (when b m)
  when-Charged true m h p = h p
  when-Charged false m h p = refl

  request-Charged : (t : Task) → Keeps (charged key_hash) (request s t)
  unfolding request
  request-Charged t p = refl

  find_model-Charged : (c : Chat) → Keeps (charged key_hash) (find_model s c)
  unfolding find_model
  find_model-Charged c p = refl

  read_cache-Charged :
      (slot : ℕ → CacheService → Option String × CacheService)
      → Keeps (charged key_hash) (read_cache s slot)
  unfolding read_cache monotonic
  read_cache-Charged slot p = refl

  module _ (c : Chat) (other : (c.agent_type == key_agent_type key_hash) ≡ false) where
    free_row-Charged :
        (resolved : ResolvedModel) (price_known cached : Bool)
        → Keeps
            (charged key_hash)
            (λ p. record_row s (free_row s c resolved price_known cached p) p)
    unfolding free_row
    free_row-Charged resolved price_known cached p = record_row-Charged _ other p

    image_generation-Charged : Keeps (charged key_hash) (image_generation s c)
    unfolding image_generation
    image_generation-Charged = bind-Keeps (charged key_hash) _ _ (find_model-Charged c) (λ resolved.
        bind-Keeps (charged key_hash) _ _ (request-Charged _) (λ r.
          bind-Keeps (charged key_hash) _ _ (free_row-Charged resolved _ false) (λ _.
            bind-Keeps (charged key_hash) _ _ (λ p. refl)
              (λ n.
                bind-Keeps (charged key_hash) _ _ (λ p. refl)
                  (λ fields.
                    bind-Keeps (charged key_hash) _ _
                      (λ p. ap (rows_of key_hash) (record_image-Keeps s _ fields p))
                      (λ _ p. refl))))))

    hit-Charged :
        (resolved : ResolvedModel) (cached : String)
        → Keeps (charged key_hash) (hit s c resolved cached)
    unfolding hit
    hit-Charged resolved cached =
        bind-Keeps (charged key_hash) _ _ (λ p. refl)
          (λ _. bind-Keeps (charged key_hash) _ _ (free_row-Charged resolved _ true) (λ _ p. refl))

    record_answer-Charged :
        (resolved : ResolvedModel) (target : String) (answer : Fields)
        → Keeps (charged key_hash) (record_answer s c resolved target answer)
    unfolding record_answer
    record_answer-Charged resolved target answer =
        bind-Keeps (charged key_hash) _ _ (λ p. refl) (λ t p. record_row-Charged _ other p)

    answered-Charged :
        (resolved : ResolvedModel) (prompt target : String) (r : Value × ℕ)
        → Keeps (charged key_hash) (answered s c resolved prompt target r)
    unfolding answered
    answered-Charged resolved prompt target (answer, latency) =
        bind-Keeps (charged key_hash) _ _ (λ p. refl)
          (λ fields.
            bind-Keeps (charged key_hash) _ _ (λ p. refl)
              (λ output.
                bind-Keeps (charged key_hash) _ _ (λ p. refl)
                  (λ content.
                    bind-Keeps (charged key_hash) _ _ (λ p. refl)
                      (λ checked.
                        bind-Keeps (charged key_hash) _ _ (when-Charged _ _ (write_cache-Charged _))
                          (λ _.
                            bind-Keeps (charged key_hash) _ _
                              (record_answer-Charged resolved target fields) (λ _ p. refl))))))

    ask-Charged :
        (resolved : ResolvedModel) (prompt : String)
        → Keeps (charged key_hash) (ask s c resolved prompt)
    unfolding ask
    ask-Charged resolved prompt =
        bind-Keeps (charged key_hash) _ _ (λ p. refl)
          (λ translated.
            bind-Keeps (charged key_hash) _ _ (request-Charged _)
              (answered-Charged resolved prompt _))

    look_up-Charged : (prompt : String) → Keeps (charged key_hash) (look_up s c prompt)
    unfolding look_up
    look_up-Charged prompt = elim (Bool-cases (is_cacheable c.body)) [
      | inl yes_cached ↦ rw yes_cached (read_cache-Charged _)
      | inr not_cached ↦ rw not_cached (λ p. refl)
    ]

    by_entry-Charged :
        (resolved : ResolvedModel) (prompt : String) (cached : Option String)
        → Keeps
            (charged key_hash)
            (elim cached [ some v ↦ hit s c resolved v | none ↦ ask s c resolved prompt ])
    by_entry-Charged resolved prompt none = ask-Charged resolved prompt
    by_entry-Charged resolved prompt (some v) = hit-Charged resolved v

    text_completion-Charged :
        (resolved : ResolvedModel) → Keeps (charged key_hash) (text_completion s c resolved)
    unfolding text_completion
    text_completion-Charged resolved =
        bind-Keeps (charged key_hash) _ _ (λ p. refl)
          (λ prompt.
            bind-Keeps (charged key_hash) _ _ (λ p. refl)
              (λ _.
                bind-Keeps (charged key_hash) _ _ (look_up-Charged prompt)
                  (by_entry-Charged resolved prompt)))

  image_call-Charged :
      (c : Chat)
      → (c.agent_type == key_agent_type key_hash) ≡ false
      → Keeps (charged key_hash) (do
        prompt ← lift (prompt_of s.codec c.body)
        image_generation s (record c { body = image_body c prompt }))
  image_call-Charged c other =
      bind-Keeps (charged key_hash) _ _ (λ p. refl)
        (λ prompt. image_generation-Charged (record c { body = image_body c prompt }) other)

  by_kind-Charged :
      (c : Chat) (resolved : ResolvedModel)
      → (c.agent_type == key_agent_type key_hash) ≡ false
      → Keeps (charged key_hash) (by_kind s c resolved)
  unfolding by_kind
  by_kind-Charged c resolved other = elim (Bool-cases (resolved.kind == "image")) [
    | inl image ↦ rw image (image_call-Charged c other)
    | inr chat ↦ rw chat (text_completion-Charged c other resolved)
  ]

-- A call of `chat_completion` under another agent type than "key_" with the start of the hash of a
-- key leaves what `check_budget` answers for that key as it was, whatever the call is answered with
-- and however it ends: by an answer of a provider, from the cache, as an image or by an exception.
-- The key may be that of the caller.
pub chat_completion-check_budget :
    (s : Setup) (c : Chat) (dollars : ℤ → String) (budgets : Dict ℤ) (key_hash : String) (p : Panel)
    → (c.agent_type == key_agent_type key_hash) ≡ false
    → check_budget dollars budgets key_hash (chat_completion s c p).1.usage
      ≡ check_budget dollars budgets key_hash p.usage
unfolding check_budget chat_completion
chat_completion-check_budget s c dollars budgets key_hash p other =
    rw
      (bind-Keeps (charged key_hash) (find_model s c) (by_kind s c)
        (find_model-Charged s key_hash c) (λ resolved. by_kind-Charged s key_hash c resolved other)
        p)
      refl
