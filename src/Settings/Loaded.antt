-- ===== src/Settings/Loaded.antt =====
-- What a configuration that is loaded satisfies, and what an empty document gives.

use parqdb.Prelude.{
  ℕ, ◌≤◌, String, true, false, not, ◌&&◌, ◌||◌, List, [], ◌∷◌, All, ◌==◌, ◌≡◌, refl, sym, ◌∙◌, ◌⊎◌,
  inl, inr, leb, arith, subst, if◌then◌else◌,
}
use parqdb.Python.Exceptions.{
  Result, ok, require, require-eq_ok, >>=-eq-ok, ok_injective, map_result, map_result-cons,
  value_error,
}
use parqdb.Python.Int.{ℤ, pos, negsuc}
use parqdb.Python.Value.{Value, null, bool, int, float, str, arr, obj, end, nil, items, get, get_or}
use parqdb.Text.Chars.{is_empty}
use parqdb.Text.Url.{SplitResult, urlsplit}
use parqdb.Settings.{
  Paths, ServerConfig, has_space, table, only_keys, string, optional_string, port_of, string_table,
  defaults, placed, local_path, source_prefix, source_prefixes, from_document, server_keys,
}

-- What _source_prefix chooses.
chosen-cases :
    (scheme source local : String)
    → (is_empty scheme ≡ false)
        × ((if not (is_empty scheme) && not (scheme == "file")
              then source
              else if scheme == "file"
              then source
              else local)
            ≡ source)
      ⊎ ((if not (is_empty scheme) && not (scheme == "file")
            then source
            else if scheme == "file"
            then source
            else local)
          ≡ local)
chosen-cases String.[] source local = inr refl
chosen-cases (String.◌∷◌ c s) source local = inl (refl, ground arith)

host_of :
    (host : String)
    → not (is_empty host || has_space host) ≡ true
    → (is_empty host ≡ false) × (has_space host ≡ false)
host_of host h = ground arith

module _ (paths : Paths) (check_netloc : String → Result (Unit {0})) where
  open paths use {FilePath, expanduser, is_absolute, beside, resolve, text}

  -- A prefix with a scheme, or a path that is resolved against the directory.
  abbrev pub IsPrefix : FilePath → String → Type 0
  IsPrefix directory prefix =
      ((parts : SplitResult) × (urlsplit check_netloc prefix ≡ ok parts)
        × (is_empty parts.scheme ≡ false))
      ⊎ ((source : String) × (prefix
            ≡ text (placed paths check_netloc directory (expanduser source))))

  pub record IsLoaded (directory : FilePath) (c : ServerConfig paths check_netloc) : Type 0 where
    pub host_some : is_empty c.host ≡ false
    pub host_plain : has_space c.host ≡ false
    pub port : (n : ℕ) × (c.port ≡ pos n) × (1 ≤ n) × (n ≤ 65535)
    pub root :
        (source : String) × (c.root ≡ placed paths check_netloc directory (expanduser source))
    pub prefixes : All (IsPrefix directory) c.allowed_source_prefixes

  port-eq_ok : (n m : ℤ) → port_of (int n) ≡ ok m → (k : ℕ) × (m ≡ pos k) × (1 ≤ k) × (k ≤ 65535)
  unfolding port_of
  port-eq_ok (pos k) m h =
      let (_, e, last) =
        >>=-eq-ok (require (leb 1 k && leb k 65535) value_error _) (λ _. ok (pos k)) h in
      let t = require-eq_ok _ _ _ e in (k, sym (ok_injective last), ground arith, ground arith)
  port-eq_ok (negsuc k) m h = cc

  port_of-bounds :
      (v : Value) (m : ℤ) → port_of v ≡ ok m → (k : ℕ) × (m ≡ pos k) × (1 ≤ k) × (k ≤ 65535)
  unfolding port_of
  port_of-bounds (int n) m h = port-eq_ok n m h
  port_of-bounds null m h = cc
  port_of-bounds (bool b) m h = cc
  port_of-bounds (float x) m h = cc
  port_of-bounds (str s) m h = cc
  port_of-bounds (arr xs) m h = cc
  port_of-bounds (obj fs) m h = cc

  source_prefix-IsPrefix :
      (directory : FilePath) (v : Value) (prefix : String)
      → source_prefix paths check_netloc directory v ≡ ok prefix
      → IsPrefix directory prefix
  unfolding source_prefix
  source_prefix-IsPrefix directory v prefix h =
      let (source, _, h₁) = >>=-eq-ok (string v "server.allowed_source_prefixes entry") _ h in
      let (parts, e, last) = >>=-eq-ok (urlsplit check_netloc source) _ h₁ in
      let local = text (placed paths check_netloc directory (expanduser source)) in
      elim (chosen-cases parts.scheme source local) [
        | inl (some_, kept) ↦ inl (
          parts,
          subst (λ p. urlsplit check_netloc p ≡ ok parts) (sym kept ∙ ok_injective last) e,
          some_,
        )
        | inr resolved ↦ inr (source, sym (ok_injective last) ∙ resolved)
      ]

  prefixes-IsPrefix :
      (directory : FilePath) (vs : List Value) (ps : List String)
      → map_result (source_prefix paths check_netloc directory) vs ≡ ok ps
      → All (IsPrefix directory) ps
  prefixes-IsPrefix directory [] ps h = rw (← ok_injective h) tt
  prefixes-IsPrefix directory (v ∷ vs) ps h =
      let (p, rest, e, e', same) = map_result-cons _ v vs h in
      rw same (source_prefix-IsPrefix directory v p e, prefixes-IsPrefix directory vs rest e')

  source_prefixes-IsPrefix :
      (directory : FilePath) (v : Value) (ps : List String)
      → source_prefixes paths check_netloc v directory ≡ ok ps
      → All (IsPrefix directory) ps
  unfolding source_prefixes
  source_prefixes-IsPrefix directory (arr vs) ps h = prefixes-IsPrefix directory (items vs) ps h
  source_prefixes-IsPrefix directory null ps h = cc
  source_prefixes-IsPrefix directory (bool b) ps h = cc
  source_prefixes-IsPrefix directory (int n) ps h = cc
  source_prefixes-IsPrefix directory (float x) ps h = cc
  source_prefixes-IsPrefix directory (str s) ps h = cc
  source_prefixes-IsPrefix directory (obj fs) ps h = cc

  local_path-eq_ok :
      (v : Value) (name : String) (directory p : FilePath)
      → local_path paths check_netloc v name directory ≡ ok p
      → (source : String) × (p ≡ placed paths check_netloc directory (expanduser source))
  unfolding local_path
  local_path-eq_ok v name directory p h =
      let (source, _, last) = >>=-eq-ok (string v name) _ h in (source, sym (ok_injective last))

  -- Every configuration that is read from a document has a non-empty host without white space,
  -- a port from 1 to 65535, a root that is a resolved path, and source prefixes of which each
  -- has a scheme or is a resolved path.
  pub from_document-IsLoaded :
      (raw : Value) (directory : FilePath) (c : ServerConfig paths check_netloc)
      → from_document paths check_netloc raw directory ≡ ok c
      → IsLoaded directory c
  unfolding from_document
  from_document-IsLoaded raw directory c h =
      let (document, _, h₁) = >>=-eq-ok (table raw "configuration") _ h in
      let (_, _, h₂) =
        >>=-eq-ok (only_keys document ("server" ∷ "storage" ∷ "session" ∷ []) "configuration") _
          h₁ in
      let (server, _, h₃) =
        >>=-eq-ok (table (get_or document "server" (obj end)) "[server]") _ h₂ in
      let (_, _, h₄) =
        >>=-eq-ok (only_keys server (server_keys paths check_netloc) "[server]") _ h₃ in
      let (host, _, h₅) =
        >>=-eq-ok
          (string (get_or server "host" (str (defaults paths check_netloc directory).host))
            "server.host")
          _ h₄ in
      let (_, plain, h₆) =
        >>=-eq-ok
          (require (not (is_empty host || has_space host)) value_error
            "server.host must be a non-empty host name or address")
          _ h₅ in
      let (port, in_range, h₇) =
        >>=-eq-ok
          (port_of (get_or server "port" (int (defaults paths check_netloc directory).port))) _
          h₆ in
      let (root, placed_, h₈) =
        >>=-eq-ok
          (local_path paths check_netloc (get_or server "root" (str "./parqdb")) "server.root"
            directory)
          _ h₇ in
      let (warehouse, _, h₉) =
        >>=-eq-ok (optional_string (get server "warehouse") "server.warehouse") _ h₈ in
      let (prefixes, each, h₁₀) =
        >>=-eq-ok
          (source_prefixes paths check_netloc (get_or server "allowed_source_prefixes" (arr nil))
            directory)
          _ h₉ in
      let (storage, _, h₁₁) =
        >>=-eq-ok (string_table (get_or document "storage" (obj end)) "[storage]") _ h₁₀ in
      let (session, _, last) =
        >>=-eq-ok (string_table (get_or document "session" (obj end)) "[session]") _ h₁₁ in
      let hosts = host_of host (require-eq_ok _ _ _ plain) in
      rw (← ok_injective last) (record {
        host_some = hosts.0;
        host_plain = hosts.1;
        port = port_of-bounds _ port in_range;
        root = local_path-eq_ok _ _ directory root placed_;
        prefixes = source_prefixes-IsPrefix directory _ prefixes each;
      })
