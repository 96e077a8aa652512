-- ===== src/Common/Tracing/Propagation.antt =====
-- The identifier that the client is told is the one that the workers log.
use godown_rbac_system.Prelude.{
  ℕ, String, false, List, [], ◌∷◌, ◌++◌, Option, none, some, ◌≡◌, refl, sym, ap, ◌∙◌, inl, inr,
  str_eq, All, Bool-cases,
}
use mathlib.Core.List.{append-nil, append_assoc}
use godown_rbac_system.World.{Result, ok, err}
use godown_rbac_system.Dict.{put, lookup-put_self}
use godown_rbac_system.Common.Tracing.{
  Headers, Trace, inject_trace_id, publish, bind_task_trace_id, request_context, given_or_new,
  is_set, new_if_unset,
}

-- A view publishes tasks, each with its headers.
unfoldable pub publish_all : List Headers → Trace → Trace
publish_all [] t = t
publish_all (h ∷ hs) t = publish_all hs (publish (some h) t)

-- A view that publishes these messages, and then returns or raises.
abbrev pub publishing :
    {Body : Type 0} → List Headers → Result Body → String → Trace → Result Body × Trace
publishing hs out request_id t = (out, publish_all hs t)

module _ (uuid4 : ℕ → String) (uuid4_full : (k : ℕ) → str_eq (uuid4 k) "" ≡ false) where
  abbrev pub id_of_request : Option String → Trace → String
  id_of_request header t = (given_or_new uuid4 header t.draws).0

  is_set_full : (o : Option String) (s : String) → is_set o ≡ some s → str_eq s "" ≡ false
  is_set_full none s h = cc
  is_set_full (some x) s h = elim (Bool-cases (str_eq x "")) [
    | inl empty ↦ let bad : none ≡ some s = rw empty at h in cc
    | inr full ↦ let same : some x ≡ some s = rw full at h in let eq : x ≡ s = cc in rw (← eq) full
  ]

  new_full :
      (o : Option String) (draws : ℕ)
      → ((s : String) → o ≡ some s → str_eq s "" ≡ false)
      → str_eq (new_if_unset uuid4 o draws).0 "" ≡ false
  new_full none draws h = uuid4_full draws
  new_full (some s) draws h = h s refl

  id_full : (header : Option String) (t : Trace) → str_eq (id_of_request header t) "" ≡ false
  id_full header t = new_full (is_set header) t.draws (is_set_full header)

  given_kept :
      (header : Option String) (t : Trace) (s : String)
      → header ≡ some s
      → str_eq s "" ≡ false
      → id_of_request header t ≡ s
  given_kept header t s given full =
      let kept : is_set header ≡ some s = rw given (rw full refl) in
      ap (λ (o : Option String). (new_if_unset uuid4 o t.draws).0) kept

  -- A worker that takes a message with these headers logs with this identifier.
  abbrev pub Logs : String → Headers → Type 0
  Logs id headers =
      (worker : Trace)
      → (bind_task_trace_id uuid4 (some headers) worker).vars ≡ ("trace_id", id) ∷ []

  module _ (id : String) (full : str_eq id "" ≡ false) where
    published_one :
        (h : Headers) (t : Trace)
        → t.vars ≡ ("request_id", id) ∷ []
        → (h' : Headers) × (publish (some h) t ≡ record t { published = t.published ++ h' ∷ [] })
          × Logs id h'
    unfolding publish inject_trace_id bind_task_trace_id
    published_one h t e = (
      put "trace_id" id h,
      rw (e, full) (rw full refl),
      (λ worker. rw (lookup-put_self "trace_id" id h, full) refl),
    )

    published-All :
        (hs : List Headers) (t : Trace)
        → t.vars ≡ ("request_id", id) ∷ []
        → (new : List Headers) × ((publish_all hs t).published ≡ t.published ++ new)
          × All (Logs id) new
    unfolding publish_all
    published-All [] t e = ([], sym (append-nil t.published), tt)
    published-All (h ∷ hs) t e =
        let (h', one, logs) = published_one h t e in
        let (new, all, rest) =
          published-All hs (publish (some h) t) (ap (λ (x : Trace). x.vars) one ∙ e) in
        (
          h' ∷ new,
          all ∙ ap (λ (x : Trace). x.published ++ new) one ∙ append_assoc t.published (h' ∷ []) new,
          (logs, rest),
        )

  -- If uuid4 gives no empty text, then whatever tasks a view publishes, and whether it returns or
  -- raises, every worker that takes one of their messages logs with one identifier: the one that the
  -- client sent, if it sent any, and otherwise a new one; the response names it too, and the context
  -- is empty afterwards.
  pub request_context-traced :
      {Body : Type 0} (header : Option String) (hs : List Headers) (out : Result Body) (t : Trace)
      → let response = request_context uuid4 (publishing hs out) header t in
        ((new : List Headers) × (response.1.published ≡ t.published ++ new)
          × All (Logs (id_of_request header t)) new)
        × ((body : Body) → out ≡ ok body → response.0 ≡ ok (body, id_of_request header t))
        × (response.1.vars ≡ [])
        × ((s : String) → header ≡ some s → str_eq s "" ≡ false → id_of_request header t ≡ s)
  unfolding request_context
  request_context-traced {Body} header hs (ok body) t =
      let inner = record t {
        vars = ("request_id", id_of_request header t) ∷ [];
        draws = (given_or_new uuid4 header t.draws).1;
      } in
      (
        published-All (id_of_request header t) (id_full header t) hs inner refl,
        (λ b same. let eq : body ≡ b = cc in ap (λ (x : Body). ok (x, id_of_request header t)) eq),
        refl,
        given_kept header t,
      )
  request_context-traced header hs (err e) t =
      let inner = record t {
        vars = ("request_id", id_of_request header t) ∷ [];
        draws = (given_or_new uuid4 header t.draws).1;
      } in
      (
        published-All (id_of_request header t) (id_full header t) hs inner refl,
        (λ b same. cc),
        refl,
        given_kept header t,
      )
