-- ===== src/Server/Requests/Limits.antt =====
-- Which request bodies the server reads.

use parqdb.Prelude.{
  ℕ, ◌≤◌, String, List, [], ◌∷◌, ◌++◌, length, length-append, append_assoc, append-nil, Option,
  some, none, ◌≡◌, ◌↔◌, refl, sym, ◌∙◌, ap, arith, true, false, Bool-cases, inl, inr, ltb,
  ltb_false→le, ◌==◌, eq_iff, subst, ◌⊎◌, Option-cases, ◌*◌,
}
use parqdb.Python.Exceptions.{ok, err, >>=-eq-ok, ok_injective, require, require-eq_ok, value_error}
use parqdb.Text.Chars.{is_empty}
use parqdb.Python.Value.{Value, Fields, obj}
use parqdb.Server.Requests.{
  Request, max_json_body_bytes, media_type, check_length, collect, as_object, json_body, request_id,
  accepted_id, printable, all_chars, text_length,
}

-- The whole body.
abbrev pub payload_of : List (List ℕ) → List ℕ
payload_of [] = []
payload_of (chunk ∷ chunks) = chunk ++ payload_of chunks

refuses :
    {A : Type 0} {m : String} {a : A} → err (record { kind = value_error; message = m }) ≡ ok a → ⊥
refuses h = cc

collect-eq_ok :
    (so_far : List ℕ) (chunks : List (List ℕ)) (p : List ℕ)
    → length so_far ≤ max_json_body_bytes
    → collect so_far chunks ≡ ok p
    → (p ≡ so_far ++ payload_of chunks) × (length p ≤ max_json_body_bytes)
unfolding collect
collect-eq_ok so_far [] p small h =
    (sym (ok_injective h) ∙ sym (append-nil so_far), rw (← ok_injective h) small)
collect-eq_ok so_far (chunk ∷ chunks) p small h =
    elim (Bool-cases (ltb max_json_body_bytes (length (so_far ++ chunk)))) [
      | inl over ↦ absurd (refuses (rw over at h))
      | inr fits ↦
          let (same, within) =
            collect-eq_ok (so_far ++ chunk) chunks p (ltb_false→le _ _ fits) (rw fits at h) in
          (same ∙ append_assoc so_far chunk (payload_of chunks), within)
    ]

le→ltb_false : (a b : ℕ) → b ≤ a → ltb a b ≡ false
le→ltb_false a b h = ground arith

collect_within :
    (so_far : List ℕ) (chunks : List (List ℕ))
    → length (so_far ++ payload_of chunks) ≤ max_json_body_bytes
    → collect so_far chunks ≡ ok (so_far ++ payload_of chunks)
unfolding collect
collect_within so_far [] small = rw (append-nil so_far) refl
collect_within so_far (chunk ∷ chunks) small =
    let joined = append_assoc so_far chunk (payload_of chunks) in
    let small' = subst (λ xs. length xs ≤ max_json_body_bytes) (sym joined) small in
    let part : length (so_far ++ chunk) ≤ max_json_body_bytes =
      omega (arith, small', length-append (so_far ++ chunk) (payload_of chunks)) in
    rw (le→ltb_false max_json_body_bytes (length (so_far ++ chunk)) part)
      (collect_within (so_far ++ chunk) chunks small' ∙ ap ok joined)

as_object-eq_ok :
    (o : Option Value) (fields : Fields) → as_object o ≡ ok fields → o ≡ some (obj fields)
unfolding as_object
as_object-eq_ok none fields h = cc
as_object-eq_ok (some (obj body)) fields h = ap (λ b. some (obj b)) (ok_injective h)
as_object-eq_ok (some _) fields h = cc

-- Reading the chunks of a body gives a payload exactly when the payload is all the chunks in
-- order and they have one mebibyte at most together.
pub collect_iff :
    (chunks : List (List ℕ)) (p : List ℕ)
    → (collect [] chunks ≡ ok p)
      ↔ ((p ≡ payload_of chunks) × (length (payload_of chunks) ≤ 1024 * 1024))
collect_iff chunks p = (
  λ h. let (same, within) = collect-eq_ok [] chunks p (omega arith) h in (same, rw (← same) within),
  λ (same, within). collect_within [] chunks within ∙ ap ok (sym same),
)

-- If a body is accepted, its media type is application/json, its chunks have one mebibyte at
-- most together, and the parser gave exactly the returned object for the whole payload.
pub json_body-eq_ok :
    (loads : List ℕ → Option Value) (r : Request) (fields : Fields)
    → json_body loads r ≡ ok fields
    → (media_type r.content_type ≡ "application/json")
      × (length (payload_of r.chunks) ≤ 1024 * 1024)
      × (loads (payload_of r.chunks) ≡ some (obj fields))
unfolding json_body
json_body-eq_ok loads r fields h =
    let (_, e₁, h₁) =
      >>=-eq-ok (require (media_type r.content_type == "application/json") value_error _) _ h in
    let (_, _, h₂) = >>=-eq-ok (check_length r.content_length) _ h₁ in
    let (payload, e₃, h₃) = >>=-eq-ok (collect [] r.chunks) _ h₂ in
    let (same, within) = (collect_iff r.chunks payload).0 e₃ in
    (
      (eq_iff _ "application/json").0 (require-eq_ok _ _ _ e₁),
      within,
      as_object-eq_ok _ fields (rw same at h₃),
    )

accepted_id-true :
    (s : String)
    → accepted_id s ≡ true
    → (is_empty s ≡ false) × (text_length s ≤ 128) × (all_chars printable s ≡ true)
unfolding accepted_id
accepted_id-true s h = ground arith

-- The id of a request is either the server's own, and then the caller gave none or one that is
-- not acceptable, or the caller's, and then it has 1 to 128 characters, all printable ASCII.
pub request_id-eq :
    (r : Request)
    → ((request_id r ≡ r.uuid)
        × ((r.x_request_id ≡ none)
            ⊎ ((s : String) × (r.x_request_id ≡ some s) × (accepted_id s ≡ false))))
      ⊎ ((r.x_request_id ≡ some (request_id r))
          × (is_empty (request_id r) ≡ false)
          × (text_length (request_id r) ≤ 128)
          × (all_chars printable (request_id r) ≡ true))
unfolding request_id
request_id-eq r = elim (Option-cases r.x_request_id) [
  | inl e ↦ inl (rw e refl, inl e)
  | inr (s, e) ↦ elim (Bool-cases (accepted_id s)) [
    | inl good ↦
        let same : request_id r ≡ s = rw (e, good) refl in
        let (full, short, plain) = accepted_id-true s good in inr (rw same (e, full, short, plain))
    | inr bad ↦ inl (rw (e, bad) refl, inr (s, e, bad))
  ]
]
