-- ===== src/Facade/Connect.antt =====
-- connect_async of facade.py up to the transport that it opens.
use parqdb.Prelude.{
  String, Bool, true, false, ◌||◌, List, [], ◌∷◌, Option, some, none, ◌≡◌, refl, ◌↔◌, inl, inr,
  Bool-cases, Option-cases, arith, ap, ◌∙◌, subst, if◌then◌else◌,
}
use parqdb.Python.Exceptions.{Result, ok, raise, >>=-eq-ok, type_error, value_error, ◌>>◌}
use parqdb.Text.Chars.{format}
use parqdb.Text.Trim.{starts_with}
use parqdb.Text.Url.{lower}

-- The arguments of connect_async; `Config` and `Runtime` are DataFusion's builders.
pub record Arguments (Config Runtime Timeout : Type 0) : Type 0 where
  pub root : Option String
  pub warehouse : Option String
  pub storage_options : Option (List (String × String))
  pub config : Option Config
  pub runtime : Option Runtime
  pub headers : Option (List (String × String))
  pub timeout : Option Timeout

-- The transport that is opened.
pub data Opening (Config Runtime Timeout : Type 0) : Type 0 where
  http : String → Option (List (String × String)) → Option Timeout → Opening Config Runtime Timeout
  in_process :
      String
      → Option String
      → Option (List (String × String))
      → Option Config
      → Option Runtime
      → Opening Config Runtime Timeout

-- _is_http_url; of what lower() changes, only ASCII letters can make one of these prefixes.
unfoldable pub is_http_url : String → Bool
is_http_url location =
    starts_with "http://" (lower location) || starts_with "https://" (lower location)

abbrev is_given {ℓ} : {A : Type ℓ} → Option A → Bool
is_given none = false
is_given (some a) = true

-- The first name whose option is given.
first_given : List (String × Bool) → Option String
first_given [] = none
first_given (option ∷ options) =
    let rest = first_given options in if option.1 then some option.0 else rest

reject_first : Option String → Result (Unit {0})
reject_first none = ok tt
reject_first (some name) =
    raise value_error (format (name ∷ " is configured by the ParqDB server, not the client" ∷ []))

module _ {Config Runtime Timeout : Type 0} where
  -- _reject_remote_embedded_options
  unfoldable pub reject_remote_embedded_options :
      Arguments Config Runtime Timeout → Result (Unit {0})
  unfolding first_given reject_first
  reject_remote_embedded_options a = reject_first (
      first_given (
        ("warehouse", is_given a.warehouse)
        ∷ ("storage_options", is_given a.storage_options)
        ∷ ("config", is_given a.config)
        ∷ ("runtime", is_given a.runtime)
        ∷ []))

  connect_remote :
      Arguments Config Runtime Timeout → String → Result (Opening Config Runtime Timeout)
  connect_remote a location = do
    reject_remote_embedded_options a
    ok (http location a.headers a.timeout)

  connect_local : Arguments Config Runtime Timeout → Result (Opening Config Runtime Timeout)
  connect_local a =
      if is_given a.headers || is_given a.timeout
      then raise value_error "headers and timeout require an http(s) server URL"
      else elim a.root [
        | none ↦ raise type_error "connect requires a local root or http(s) server URL"
        | some location ↦ ok (in_process location a.warehouse a.storage_options a.config a.runtime)
      ]

  -- connect_async
  unfoldable pub connect_async :
      Arguments Config Runtime Timeout → Result (Opening Config Runtime Timeout)
  unfolding connect_remote connect_local
  connect_async a = elim a.root [
    | none ↦ connect_local a
    | some location ↦ if is_http_url location then connect_remote a location else connect_local a
  ]

given_none : {A : Type 0} (o : Option A) → is_given o ≡ false → o ≡ none
given_none none h = refl
given_none (some a) h = cc

module _ {Config Runtime Timeout : Type 0} where
  -- That no option of an embedded session is given.
  abbrev pub HasNoEmbedded : Arguments Config Runtime Timeout → Type 0
  HasNoEmbedded a =
      (a.warehouse ≡ none) × (a.storage_options ≡ none) × (a.config ≡ none) × (a.runtime ≡ none)

  rejected-ok :
      (a : Arguments Config Runtime Timeout)
      → reject_remote_embedded_options a ≡ ok tt
      → HasNoEmbedded a
  unfolding reject_remote_embedded_options
  rejected-ok a h = (
    given_none a.warehouse (ground arith),
    given_none a.storage_options (ground arith),
    given_none a.config (ground arith),
    given_none a.runtime (ground arith),
  )

  no_embedded-ok :
      (a : Arguments Config Runtime Timeout)
      → HasNoEmbedded a
      → reject_remote_embedded_options a ≡ ok tt
  unfolding reject_remote_embedded_options
  no_embedded-ok a (w, s, c, r) = rw (w, s, c, r) refl

  http_injective :
      {u v : String} {g h : Option (List (String × String))} {s t : Option Timeout}
      → ◌≡◌ {A = Result (Opening Config Runtime Timeout)} (ok (http u g s)) (ok (http v h t))
      → (u ≡ v) × (g ≡ h) × (s ≡ t)
  http_injective e = (cc, cc, cc)

  local-ne_http :
      (a : Arguments Config Runtime Timeout) (u : String) (h : Option (List (String × String)))
      (t : Option Timeout)
      → connect_local a ≡ ok (http u h t)
      → ⊥
  unfolding connect_local
  local-ne_http a u h t e = ground arith

  remote-eq_ok :
      (a : Arguments Config Runtime Timeout) (location u : String)
      (h : Option (List (String × String))) (t : Option Timeout)
      → connect_remote a location ≡ ok (http u h t)
      → HasNoEmbedded a × (location ≡ u) × (a.headers ≡ h) × (a.timeout ≡ t)
  unfolding connect_remote
  remote-eq_ok a location u h t e =
      let (_, accepted, last) = >>=-eq-ok (reject_remote_embedded_options a) _ e in
      let (url, headers, timeout) = http_injective last in
      (rejected-ok a accepted, url, headers, timeout)

  -- connect_async opens the HTTP transport with a location, headers and a timeout exactly if
  -- the root is this location, an http or https URL, no warehouse, storage options,
  -- configuration or runtime is given, and these are the headers and the timeout that the
  -- caller gave.
  pub connect_async-http_iff :
      (a : Arguments Config Runtime Timeout) (u : String) (h : Option (List (String × String)))
      (t : Option Timeout)
      → (connect_async a ≡ ok (http u h t)) ↔ (
          (a.root ≡ some u)
          × (is_http_url u ≡ true)
          × HasNoEmbedded a
          × (a.headers ≡ h)
          × (a.timeout ≡ t))
  unfolding connect_async
  connect_async-http_iff a u h t = (opened, opens)
    where
      opened :
          connect_async a ≡ ok (http u h t)
          → (a.root ≡ some u)
            × (is_http_url u ≡ true)
            × HasNoEmbedded a
            × (a.headers ≡ h)
            × (a.timeout ≡ t)
      opened e = elim (Option-cases a.root) [
        | inl absent ↦ absurd (local-ne_http a u h t (rw (connect_async, absent) at e))
        | inr (location, there) ↦ elim (Bool-cases (is_http_url location)) [
          | inl url ↦
              let (none_given, same, headers, timeout) =
                remote-eq_ok a location u h t (rw (connect_async, there, url) at e) in
              (
                there ∙ ap some same,
                subst (λ l. is_http_url l ≡ true) same url,
                none_given,
                headers,
                timeout,
              )
          | inr other ↦ absurd (local-ne_http a u h t (rw (connect_async, there, other) at e))
        ]
      ]

      opens :
          (a.root ≡ some u)
            × (is_http_url u ≡ true)
            × HasNoEmbedded a
            × (a.headers ≡ h)
            × (a.timeout ≡ t)
          → connect_async a ≡ ok (http u h t)
      opens (root, url, none_given, headers, timeout) =
          rw
            (
              connect_async,
              root,
              url,
              connect_remote,
              no_embedded-ok a none_given,
              headers,
              timeout,
            )
            refl
