-- ===== src/Sources.antt =====
-- server/source_policy.py: which sources the server may read. The file system is a parameter, what
-- Path(reference).expanduser().resolve() gives, as the parts after the root.
pub mod Paths
pub mod Below
pub mod Containment
pub mod Local
use Prim.Native.String
use parqdb.Prelude.{
  ℕ, String, Char, code, Bool, true, false, not, ◌&&◌, ◌||◌, ◌==◌, List, [], ◌∷◌, ◌++◌, map, any,
  eqb, ltb, Option, some, none, if◌then◌else◌,
}
use parqdb.Python.Exceptions.{
  Result, ok, raise, require, value_error, permission_error, ◌>>=◌, ◌>>◌,
}
use parqdb.Text.Chars.{contains, is_empty, format}
use parqdb.Text.Split.{split, join, one}
use parqdb.Text.Trim.{lstrip, rstrip, starts_with}
use parqdb.Text.Quote.{quote, unquote}
use parqdb.Text.Url.{SplitResult, urlsplit, lower}

pub record ObjectPrefix : Type 0 where
  pub scheme : String
  pub authority : String
  pub path : String

-- One part of a path in posixpath.normpath, with the parts before it, the last one first.
abbrev pub is_dotdot : List String → Bool
is_dotdot [] = false
is_dotdot (part ∷ stack) = part == ".."

abbrev pub without_first : List String → List String
without_first [] = []
without_first (part ∷ stack) = stack

unfoldable pub push : List String → String → List String
push stack part =
    if is_empty part || part == "."
    then stack
    else if not (part == "..") || is_dotdot stack
    then part ∷ stack
    else without_first stack

unfoldable pub normal_parts : List String → List String → List String
normal_parts stack [] = stack
normal_parts stack (part ∷ parts) = normal_parts (push stack part) parts

abbrev pub reversed : List String → List String → List String
reversed [] done = done
reversed (part ∷ parts) done = reversed parts (part ∷ done)

-- posixpath.normpath of a path that begins with exactly one slash
unfoldable pub normpath : String → String
normpath path = format ("/" ∷ join "/" (reversed (normal_parts [] (split "/" path)) []) ∷ [])

abbrev is_control : String → Bool
is_control String.[] = false
is_control (String.◌∷◌ c s) = ltb (code c) 32 || eqb (code c) 127 || is_control s

unfoldable pub normalize_object_path : String → Result String
normalize_object_path path = do
  require (not (is_control (unquote path))) value_error
      "source URI paths must not contain control characters"
  let normalized = normpath (format ("/" ∷ lstrip "/" (unquote path) ∷ [])) in
      ok (if normalized == "/." then "/" else normalized)

unfoldable pub object_prefix : SplitResult → Result ObjectPrefix
object_prefix parsed = do
  require (not (is_empty parsed.scheme || parsed.scheme == "file")) value_error
      "object-store URI must contain a non-file scheme"
  require (not (contains "@" parsed.netloc)) value_error "source URIs must not contain credentials"
  require (not (is_empty parsed.netloc)) value_error "object-store URI must contain an authority"
  require (is_empty parsed.query && is_empty parsed.fragment) value_error
      "source URIs must not contain a query or fragment"
  path ← normalize_object_path parsed.path
  ok (record { scheme = parsed.scheme; authority = parsed.netloc; path = path })

-- text or default
abbrev or_text : String → String → String
or_text String.[] default = default
or_text (String.◌∷◌ c s) default = String.◌∷◌ c s

unfoldable pub matches_object_prefix : ObjectPrefix → ObjectPrefix → Bool
matches_object_prefix candidate prefix =
    let root = or_text (rstrip "/" prefix.path) "/" in
    (candidate.scheme == prefix.scheme && candidate.authority == prefix.authority)
    && (candidate.path == root || starts_with (format (rstrip "/" root ∷ "/" ∷ [])) candidate.path)

abbrev pub starts_with_parts : List String → List String → Bool
starts_with_parts [] path = true
starts_with_parts (r ∷ root) [] = false
starts_with_parts (r ∷ root) (p ∷ path) = r == p && starts_with_parts root path

-- path.relative_to(root) succeeds
abbrev pub is_below : List String → List String → Bool
is_below path root = starts_with_parts root path

abbrev contains_glob : String → Bool
contains_glob s = contains "*" s || contains "?" s || contains "[" s

-- os.fspath of a resolved path
abbrev pub fspath : List String → String
fspath parts = format ("/" ∷ join "/" parts ∷ [])

-- The reference that _local_path makes a path of.
unfoldable pub local_path : SplitResult → String → Result String
local_path parsed reference = if is_empty parsed.scheme then ok reference else (do
  require (is_empty parsed.query && is_empty parsed.fragment) value_error
      "file URIs must not contain a query or fragment"
  require (is_empty parsed.netloc || parsed.netloc == "localhost") value_error
      "file URIs must not contain a remote authority"
  require (starts_with "/" (unquote parsed.path)) value_error
      "file URIs must contain an absolute path"
  ok (unquote parsed.path))

pub record SourceUriPolicy : Type 0 where
  pub file_roots : List (List String)
  pub object_prefixes : List ObjectPrefix
  pub resource_name : String

abbrev is_local : SplitResult → Bool
is_local parsed = is_empty parsed.scheme || parsed.scheme == "file"

abbrev pub safe_characters : String
safe_characters = "/:@-._~!$&'()*+,;=[]"

unfoldable pub authorize_object : SourceUriPolicy → SplitResult → Result String
authorize_object policy parsed = do
  candidate ← object_prefix parsed
  require (any (matches_object_prefix candidate) policy.object_prefixes) permission_error
      (format (policy.resource_name ∷ " is outside the allowed URI prefixes" ∷ []))
  ok (
      format (
        candidate.scheme ∷ "://" ∷ candidate.authority ∷ quote safe_characters candidate.path ∷ []))

module _ (check_netloc : String → Result (Unit {0})) (resolve : String → Result (List String)) where
  unfoldable pub add_prefix : SourceUriPolicy → String → Result SourceUriPolicy
  add_prefix policy reference = do
    parsed ← urlsplit check_netloc reference
    if is_local parsed
        then (do
          path ← local_path parsed reference
          root ← resolve path
          require (not (contains_glob (fspath root))) value_error
              "allowed file roots must not contain glob patterns"
          ok (record policy { file_roots = policy.file_roots ++ root ∷ [] }))
        else (do
          prefix ← object_prefix parsed
          require (not (contains_glob prefix.path)) value_error
              "allowed object-store prefixes must not contain glob patterns"
          ok (record policy { object_prefixes = policy.object_prefixes ++ prefix ∷ [] }))

  unfoldable pub add_prefixes : SourceUriPolicy → List String → Result SourceUriPolicy
  unfolding add_prefix
  add_prefixes policy [] = ok policy
  add_prefixes policy (reference ∷ references) = do
    more ← add_prefix policy reference
    add_prefixes more references

  -- SourceUriPolicy.__init__
  unfoldable pub source_uri_policy : List String → String → Result SourceUriPolicy
  unfolding add_prefixes
  source_uri_policy prefixes name =
      add_prefixes (record { file_roots = []; object_prefixes = []; resource_name = name }) prefixes

  unfoldable pub authorize_local : SourceUriPolicy → SplitResult → String → Result String
  authorize_local policy parsed reference = do
    local ← local_path parsed reference
    path ← resolve local
    require (any (λ root. is_below path root) policy.file_roots) permission_error
        (format (policy.resource_name ∷ " is outside the allowed file roots" ∷ []))
    ok (fspath path)

  unfoldable pub authorize : SourceUriPolicy → String → Result String
  authorize policy reference = do
    require (not (is_empty reference)) value_error
        (format (policy.resource_name ∷ " must not be empty" ∷ []))
    parsed ← urlsplit check_netloc reference
    if is_local parsed
        then authorize_local policy parsed reference
        else authorize_object policy parsed
