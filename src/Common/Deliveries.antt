-- ===== src/Common/Deliveries.antt =====
-- What Celery's retries and double deliveries of a task that mails come to, where the task runs
-- under `IdempotencyService.run` (services/common/idempotency.py).
use godown_rbac_system.Prelude.{
  ℕ, ◌+◌, ◌≤◌, ◌<◌, String, Bool, true, false, List, [], ◌∷◌, ◌++◌, Option, none, some, ◌≡◌, refl,
  ap, ◌∙◌, subst, any, All, arith,
}
use godown_rbac_system.World.{Db, Exc, Result, ok, err}
use godown_rbac_system.Common.Idempotency.{ResultCache, default_ttl_seconds, cache_key, keep, run}
use godown_rbac_system.Common.Mail.{Mail, Outbox}

-- One delivery: when it reads the cache, when it stores its result, and the tables it finds.
pub record Delivery : Type 0 where
  pub start : ℕ
  pub finish : ℕ
  pub db : Db

abbrev pub Report : Type 0
Report = Result (Option String)

abbrev pub returned : Report → Bool
returned (ok s) = true
returned (err e) = false

-- One run of an operation that mails: it sent one mail, skipped, or raised and sent nothing.
pub data Ran (sent_text skipped_text : String) (IsMail : Mail → Type 0) (o : Outbox)
    (out : Report × Outbox) : Type 0 where
  mailed :
      (m : Mail)
      → IsMail m
      → out.0 ≡ ok (some sent_text)
      → out.1.sent ≡ o.sent ++ m ∷ []
      → Ran sent_text skipped_text IsMail o out
  skipped :
      out.0 ≡ ok (some skipped_text) → out.1.sent ≡ o.sent → Ran sent_text skipped_text IsMail o out
  raised : (e : Exc) → out.0 ≡ err e → out.1.sent ≡ o.sent → Ran sent_text skipped_text IsMail o out

-- Where all deliveries of one task end: all raised and nothing was sent; or some returned, all of
-- those returned one text, and one mail was sent if the text says so and none if it says skipped.
pub data Ended (sent_text skipped_text : String) (IsMail : Mail → Type 0) (before : List Mail)
    (reports : List Report) (after : List Mail) : Type 0 where
  all_raised :
      All (λ r. returned r ≡ false) reports
      → after ≡ before
      → Ended sent_text skipped_text IsMail before reports after
  mailed_once :
      (m : Mail)
      → IsMail m
      → any returned reports ≡ true
      → All (λ r. returned r ≡ true → r ≡ ok (some sent_text)) reports
      → after ≡ before ++ m ∷ []
      → Ended sent_text skipped_text IsMail before reports after
  all_skipped :
      any returned reports ≡ true
      → All (λ r. returned r ≡ true → r ≡ ok (some skipped_text)) reports
      → after ≡ before
      → Ended sent_text skipped_text IsMail before reports after

module _ {Cache : Type 0} (api : ResultCache String Cache) where
  kept_ok :
      (full_key : String) (ttl finish : ℕ) (c : Cache) (v : Option String) (out : Report × Outbox)
      → out.0 ≡ ok v
      → keep api full_key ttl finish c out ≡ (ok v, out.1, api.set full_key v ttl finish c)
  kept_ok full_key ttl finish c v (ok s, o) h = let same : s ≡ v = cc in rw same refl
  kept_ok full_key ttl finish c v (err e, o) h = cc

  kept_err :
      (full_key : String) (ttl finish : ℕ) (c : Cache) (e : Exc) (out : Report × Outbox)
      → out.0 ≡ err e
      → keep api full_key ttl finish c out ≡ (err e, out.1, c)
  kept_err full_key ttl finish c e (ok s, o) h = cc
  kept_err full_key ttl finish c e (err f, o) h = let same : f ≡ e = cc in rw same refl

-- All within one lifetime of the results: they start before `limit`, and no result that one of
-- them stores is gone by then.
abbrev pub InTime : ℕ → List Delivery → Type 0
InTime limit = All (λ d. (d.start < limit) × (limit ≤ d.finish + default_ttl_seconds))

-- The deliveries of one task, one after the other.
module _ {Cache : Type 0} (task : Delivery → Outbox → Cache → Report × Outbox × Cache) where
  abbrev after_first :
      Report × Outbox × Cache
      → (Outbox → Cache → List Report × Outbox × Cache)
      → List Report × Outbox × Cache
  after_first (r, o, c) rest = (r ∷ (rest o c).0, (rest o c).1, (rest o c).2)

  unfoldable pub deliver_each : List Delivery → Outbox → Cache → List Report × Outbox × Cache
  deliver_each [] o c = ([], o, c)
  deliver_each (d ∷ ds) o c = after_first (task d o c) (deliver_each ds)

module _ {Cache : Type 0} (api : ResultCache String Cache) (key : String)
    (operation : Db → Outbox → Report × Outbox) where
  abbrev deliver : Delivery → Outbox → Cache → Report × Outbox × Cache
  deliver d o c = run api key (operation d.db) default_ttl_seconds d.start d.finish o c

  abbrev pub deliver_all : List Delivery → Outbox → Cache → List Report × Outbox × Cache
  deliver_all = deliver_each deliver

  repeated :
      (limit : ℕ) (v : String) (ds : List Delivery) (o : Outbox) (c : Cache)
      → ((t : ℕ) → t < limit → api.get (cache_key key) t c ≡ some v)
      → InTime limit ds
      → All (λ r. r ≡ ok (some v)) (deliver_all ds o c).0 × ((deliver_all ds o c).1 ≡ o)
  unfolding deliver_each run
  repeated limit v [] o c held h = (tt, refl)
  repeated limit v (d ∷ ds) o c held h =
      rw (held d.start h.0.0)
        ((refl, (repeated limit v ds o c held h.1).0), (repeated limit v ds o c held h.1).1)

  only_ok :
      (v : String) (reports : List Report)
      → All (λ r. r ≡ ok (some v)) reports
      → All (λ r. returned r ≡ true → r ≡ ok (some v)) reports
  only_ok v [] h = tt
  only_ok v (r ∷ rs) h = ((λ _. h.0), only_ok v rs h.1)

  -- The first delivery returned, so that the later ones repeat its text.
  returned_first :
      (limit : ℕ) (v : String) (d : Delivery) (ds : List Delivery) (o : Outbox) (c : Cache)
      → ((t : ℕ) → api.get (cache_key key) t c ≡ none)
      → InTime limit (d ∷ ds)
      → (operation d.db o).0 ≡ ok (some v)
      → (any returned (deliver_all (d ∷ ds) o c).0 ≡ true)
        × All (λ r. returned r ≡ true → r ≡ ok (some v)) (deliver_all (d ∷ ds) o c).0
        × ((deliver_all (d ∷ ds) o c).1 ≡ (operation d.db o).1)
  unfolding deliver_each run
  returned_first limit v d ds o c empty h e =
      let c_1 = api.set (cache_key key) (some v) default_ttl_seconds d.finish c in
      let o_1 = (operation d.db o).1 in
      let held = λ (t : ℕ) (early : t < limit).
        api.get_set_same (cache_key key) (some v) default_ttl_seconds d.finish t c
          (omega (arith, h.0.1)) in
      let (texts, same) = repeated limit v ds o_1 c_1 held h.1 in
      rw
        (
          empty d.start,
          kept_ok api (cache_key key) default_ttl_seconds d.finish c (some v) (operation d.db o) e,
        )
        (refl, ((λ _. refl), only_ok v (deliver_all ds o_1 c_1).0 texts), same)

  none_made : (o : Outbox) (c : Cache) → deliver_all [] o c ≡ ([], o, c)
  unfolding deliver_each
  none_made o c = refl

  raised_first :
      (e : Exc) (d : Delivery) (ds : List Delivery) (o : Outbox) (c : Cache)
      → ((t : ℕ) → api.get (cache_key key) t c ≡ none)
      → (operation d.db o).0 ≡ err e
      → deliver_all (d ∷ ds) o c ≡ (
        err e ∷ (deliver_all ds (operation d.db o).1 c).0,
        (deliver_all ds (operation d.db o).1 c).1,
        (deliver_all ds (operation d.db o).1 c).2,
      )
  unfolding deliver_each run
  raised_first e d ds o c empty h =
      rw
        (
          empty d.start,
          kept_err api (cache_key key) default_ttl_seconds d.finish c e (operation d.db o) h,
        )
        refl

  module _ (sent_text skipped_text : String) (IsMail : Mail → Type 0) where
    after_raise :
        (e : Exc) (before after : List Mail) (reports : List Report)
        → Ended sent_text skipped_text IsMail before reports after
        → Ended sent_text skipped_text IsMail before (err e ∷ reports) after
    after_raise e before after reports (all_raised h same) = all_raised (refl, h) same
    after_raise e before after reports (mailed_once m is some_did texts more) =
        mailed_once m is some_did ((λ (no_one : false ≡ true). cc), texts) more
    after_raise e before after reports (all_skipped some_did texts same) =
        all_skipped some_did ((λ (no_one : false ≡ true). cc), texts) same

    pub deliver_all-Ended :
        ((db : Db) (o : Outbox) → Ran sent_text skipped_text IsMail o (operation db o))
        → (limit : ℕ) (ds : List Delivery) (o : Outbox) (c : Cache)
        → ((t : ℕ) → api.get (cache_key key) t c ≡ none)
        → InTime limit ds
        → Ended sent_text skipped_text IsMail o.sent
            (deliver_all ds o c).0
            (deliver_all ds o c).1.sent
    deliver_all-Ended runs limit [] o c empty h = rw (none_made o c) (all_raised tt refl)
    deliver_all-Ended runs limit (d ∷ ds) o c empty h = elim (runs d.db o) [
      | mailed m is e more ↦
          let (some_did, texts, same) = returned_first limit sent_text d ds o c empty h e in
          mailed_once m is some_did texts (ap (λ (x : Outbox). x.sent) same ∙ more)
      | skipped e unsent ↦
          let (some_did, texts, same) = returned_first limit skipped_text d ds o c empty h e in
          all_skipped some_did texts (ap (λ (x : Outbox). x.sent) same ∙ unsent)
      | raised x e unsent ↦
          let o_1 = (operation d.db o).1 in
          rw (raised_first x d ds o c empty e) (
            after_raise x o.sent (deliver_all ds o_1 c).1.sent (deliver_all ds o_1 c).0 (
              subst
                (λ before.
                  Ended sent_text skipped_text IsMail before (deliver_all ds o_1 c).0
                    (deliver_all ds o_1 c).1.sent)
                unsent (deliver_all-Ended runs limit ds o_1 c empty h.1)))
    ]
