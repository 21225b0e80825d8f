-- ===== src/Server/Tables/Paging.antt =====
-- The client's loop over the pages that the server makes of the list of tables.
use parqdb.Prelude.{
  ℕ, zero, suc, ◌+◌, ◌*◌, ◌≤◌, ◌<◌, String, false, List, [], ◌∷◌, ◌++◌, length, take, drop, All,
  length-append, length-take, length-drop, take-append-drop, append_assoc, Option, some, none, ◌≡◌,
  ◌⊎◌, inl, inr, refl, ◌∙◌, ap, arith, ltb, Bool-cases, ltb→lt, ltb_false→le, if◌then◌else◌,
}
use parqdb.Python.Exceptions.{Result, ok}
use parqdb.Python.Value.{Value, null, str}
use parqdb.Python.Action.{Action}
use parqdb.Text.Decimal.{of_nat}
use parqdb.Identifier.{TableIdentifier, IsValid}
use parqdb.Models.Registration.{Arrow}
use parqdb.Http.Client.{
  Transport, Message, Reply, response, request_json, ensure_open, read_reply, response_json,
  body_limit,
}
use parqdb.Http.Client.Tables.{
  list_from, one_page, list_tables, read_page, tables_of, token_of, page_params, last, more,
}
use parqdb.Server.Requests
use parqdb.Server.Requests.{Request, json_response, stream_response, request_id}
use parqdb.Server.Service.{App}
use parqdb.Server.Tables.{list_tables_operation, tables_page, handled}
use parqdb.Server.Tables.Tokens.{
  At, page_request, page_of-page_request, take-All, drop-All, drop-append, take_all, tables-read,
  IsSeen, member-seen, is_empty-of_nat,
}

-- The response as the client's HTTP library gives it on; `size_of` is the size of a JSON text.
abbrev pub reply_to :
    {S Stream : Type 0} → (Value → ℕ) → Requests.Response Stream × S → Result Reply × S
reply_to size_of (json_response status body id, s) = (
  ok (
      response (record { status_code = status; x_request_id = some id }) (size_of body)
        (some body)),
  s,
)
reply_to size_of (stream_response stream id, s) =
    (ok (response (record { status_code = 200; x_request_id = some id }) 0 none), s)

abbrev pub page_message : Option String → Message
page_message token = record {
  method = "GET";
  path = "v1/table";
  params = page_params token;
  body = none;
}

module _ {arrow : Arrow} {S Batches Stream : Type 0} (app : App arrow S Batches Stream)
    (r : Request) (tables : List TableIdentifier) (size_of : Value → ℕ)
    (send : Message → Action S Reply) (transport : Transport)
    (listed : (s : S) → app.service.list_tables s ≡ (ok tables, s))
    (sends : (token : Option String) (s : S)
      → send (page_message token) s
        ≡ reply_to size_of
            (handled (page_request r token) (list_tables_operation app (page_request r token)) s))
    (fits : (o : ℕ) → size_of (tables_page tables 1000 o) ≤ body_limit)
    (opened : transport.closed ≡ false) (valid : All IsValid tables) where
  served :
      (token : Option String) (o : ℕ) (s : S)
      → At token o
      → send (page_message token) s ≡ (
        ok (
            response
              (record {
                status_code = 200;
                x_request_id = some (request_id (page_request r token));
              })
              (size_of (tables_page tables 1000 o))
              (some (tables_page tables 1000 o))),
        s,
      )
  unfolding list_tables_operation
  served token o s at = sends token s ∙ rw (page_of-page_request r token o at, listed s) refl

  requested :
      (token : Option String) (o : ℕ) (s : S)
      → At token o
      → request_json send transport "GET" "v1/table" (page_params token) none s ≡ (
        read_reply (
            response
              (record {
                status_code = 200;
                x_request_id = some (request_id (page_request r token));
              })
              (size_of (tables_page tables 1000 o))
              (some (tables_page tables 1000 o))),
        s,
      )
  unfolding request_json ensure_open
  requested token o s at = rw (opened, served token o s at) refl

  page : ℕ → List TableIdentifier
  page o = take 1000 (drop o tables)

  next : ℕ → Value
  next o =
      if ltb (o + length (page o)) (length tables) then str (of_nat (o + length (page o))) else null

  small : (size : ℕ) → size ≤ body_limit → ltb body_limit size ≡ false
  small size h = ground arith

  turn :
      (so_far : List TableIdentifier) (seen : List String) (token : Option String) (o : ℕ) (s : S)
      → At token o
      → one_page send transport so_far seen token s ≡ (token_of (so_far ++ page o) seen (next o), s)
  unfolding one_page read_page tables_of read_reply response_json tables_page page next
  turn so_far seen token o s at =
      rw
        (
          requested token o s at,
          small (size_of (tables_page tables 1000 o)) (fits o),
          tables-read (take 1000 (drop o tables))
              (take-All 1000 (drop o tables) (drop-All o tables valid)),
        )
        refl

  page-rest :
      (so_far rest : List TableIdentifier)
      → so_far ++ rest ≡ tables
      → page (length so_far) ≡ take 1000 rest
  unfolding page
  page-rest so_far rest e = rw (← e, drop-append so_far rest) refl

  -- What a turn finds: the last page, or the next page's token.
  token_of-next :
      (so_far rest : List TableIdentifier) (seen : List String)
      → so_far ++ rest ≡ tables
      → All (IsSeen (length so_far)) seen
      → ((length rest ≤ 1000)
          × (token_of (so_far ++ page (length so_far)) seen (next (length so_far))
              ≡ ok (last tables)))
        ⊎ ((1000 < length rest)
            × (token_of (so_far ++ page (length so_far)) seen (next (length so_far))
                ≡ ok
                    (more (so_far ++ take 1000 rest) (of_nat (length (so_far ++ take 1000 rest))))))
  unfolding next token_of
  token_of-next so_far rest seen e h =
      let n = length so_far in
      let total : length tables ≡ n + length rest = rw (← e) (length-append so_far rest) in
      let taken = length-take 1000 rest in
      let grown = length-append so_far (take 1000 rest) in
      elim (Bool-cases (ltb (n + length (take 1000 rest)) (length tables))) [
        | inl less ↦
            let lt = ltb→lt _ _ less in
            inr (
              omega (arith, lt, total, taken),
              rw
                  (
                    page-rest so_far rest e,
                    less,
                    is_empty-of_nat (n + length (take 1000 rest)),
                    member-seen n (n + length (take 1000 rest)) seen
                        (omega (arith, lt, total, taken)) h,
                    grown,
                  )
                  refl,
            )
        | inr over ↦
            let short : length rest ≤ 1000 = omega (arith, total, taken, ltb_false→le _ _ over) in
            inl (short, rw (page-rest so_far rest e, over, take_all 1000 rest short, e) refl)
      ]

  IsSeen-grows : (m n : ℕ) (seen : List String) → m ≤ n → All (IsSeen m) seen → All (IsSeen n) seen
  IsSeen-grows m n [] le h = tt
  IsSeen-grows m n (t ∷ seen) le ((k, e, le'), h) =
      ((k, e, omega arith), IsSeen-grows m n seen le h)

  list_from-collects :
      (fuel : ℕ) (so_far rest : List TableIdentifier) (seen : List String) (token : Option String)
      (s : S)
      → so_far ++ rest ≡ tables
      → At token (length so_far)
      → All (IsSeen (length so_far)) seen
      → length rest ≤ 1000 * fuel
      → 1 ≤ fuel
      → list_from send transport fuel so_far seen token s ≡ some (ok tables, s)
  unfolding list_from
  list_from-collects zero so_far rest seen token s e at h enough some_fuel =
      absurd (omega (arith, some_fuel))
  list_from-collects (suc fuel) so_far rest seen token s e at h enough some_fuel =
      let whole = turn so_far seen token (length so_far) s at in
      elim (token_of-next so_far rest seen e h) [
        | inl (short, found) ↦ rw (list_from, ap (λ p. p.0) whole, found, ap (λ p. p.1) whole) refl
        | inr (long, found) ↦
            let grown = length-append so_far (take 1000 rest) in
            rw (list_from, ap (λ p. p.0) whole, found, ap (λ p. p.1) whole)
              (list_from-collects fuel (so_far ++ take 1000 rest) (drop 1000 rest) _ _ s
                (append_assoc so_far (take 1000 rest) (drop 1000 rest)
                  ∙ ap (λ ts. so_far ++ ts) (take-append-drop 1000 rest)
                  ∙ e)
                (inr refl)
                (
                  (length (so_far ++ take 1000 rest), refl, omega arith),
                  IsSeen-grows _ _ seen (omega (arith, grown)) h,
                )
                (omega (arith, length-drop 1000 rest, long, enough)) (omega (arith, long, enough)))
      ]

  is_open : ensure_open transport ≡ ok tt
  unfolding ensure_open
  is_open = rw opened refl

  -- With the requests of an open client answered by the list handler over a service whose list
  -- of valid tables does not change, and with pages within the client's size limit, the
  -- client's loop ends with exactly the list of tables, in order and without a repeated token,
  -- for any positive fuel of at least a thousandth of the number of tables.
  pub list_tables-collects :
      (fuel : ℕ) (s : S)
      → length tables ≤ 1000 * fuel
      → 1 ≤ fuel
      → list_tables send transport fuel s ≡ some (ok tables, s)
  unfolding list_tables
  list_tables-collects fuel s enough some_fuel =
      rw (list_tables, is_open)
        (list_from-collects fuel [] tables [] none s refl (inl (refl, refl)) tt enough some_fuel)
