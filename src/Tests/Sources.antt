-- ===== src/Tests/Sources.antt =====
-- The source policy at a concrete policy.
use parqdb.Prelude.{String, List, [], ◌∷◌, ◌++◌, All, ◌≡◌, refl}
use parqdb.Python.Exceptions.{Result, ok}
use parqdb.Text.Chars.{format, contains, to_char, strip_prefix}
use parqdb.Text.Utf8.{encode_char}
use parqdb.Text.Split.{split, join}
use parqdb.Text.Trim.{lstrip, rstrip}
use parqdb.Text.Quote.{quote, unquote}
use parqdb.Text.Url.{SplitResult, urlsplit, lower}
use parqdb.Sources.{
  ObjectPrefix, SourceUriPolicy, push, normal_parts, normpath, normalize_object_path, object_prefix,
  source_uri_policy, matches_object_prefix, authorize_object, authorize_local, local_path, fspath,
  safe_characters,
}
use parqdb.Sources.Paths.{IsPlain, absolute}
use parqdb.Sources.Local.{authorize_local-below}
use parqdb.Sources.Containment.{IsNormal, authorize_object-below, source_uri_policy-IsNormal}

abbrev data_policy : SourceUriPolicy
data_policy = record {
  file_roots = [];
  object_prefixes = record { scheme = "s3"; authority = "lake"; path = "/data" } ∷ [];
  resource_name = "Parquet source";
}

abbrev a_source : SplitResult
a_source = record {
  scheme = "s3";
  netloc = "lake";
  path = "/data/x/../a%20b";
  query = "";
  fragment = "";
}

abbrev accept : String → Result (Unit {0})
accept s = ok tt

abbrev nowhere : String → Result (List String)
nowhere s = ok []

policy_made :
    source_uri_policy accept nowhere ("s3://lake/data/" ∷ []) "Parquet source" ≡ ok data_policy
unfolding source_uri_policy urlsplit object_prefix normalize_object_path normpath normal_parts push
    unquote lower contains format join split lstrip
policy_made = refl

source_uri_policy-IsNormal_example : All IsNormal data_policy.object_prefixes
source_uri_policy-IsNormal_example =
    source_uri_policy-IsNormal accept nowhere ("s3://lake/data/" ∷ []) "Parquet source" data_policy
      policy_made

authorized : authorize_object data_policy a_source ≡ ok "s3://lake/data/a%20b"
unfolding authorize_object object_prefix contains normalize_object_path unquote to_char
    matches_object_prefix normpath format join normal_parts split lstrip push rstrip strip_prefix
    quote encode_char
authorized = refl

authorize_object-below_example :
    (prefix : ObjectPrefix) × (front back : List ObjectPrefix) × (rest : List String)
    × (n : IsNormal prefix) × (data_policy.object_prefixes ≡ front ++ prefix ∷ back)
    × ("s3" ≡ prefix.scheme)
    × ("lake" ≡ prefix.authority)
    × All IsPlain (n.parts ++ rest)
    × ("s3://lake/data/a%20b"
        ≡ format (
            prefix.scheme
            ∷ "://"
            ∷ prefix.authority
            ∷ quote safe_characters (absolute (n.parts ++ rest))
            ∷ []))
authorize_object-below_example =
    authorize_object-below data_policy a_source "s3://lake/data/a%20b"
      (source_uri_policy-IsNormal accept nowhere ("s3://lake/data/" ∷ []) "Parquet source"
        data_policy policy_made)
      authorized

-- A file system that resolves one reference.
abbrev resolve_data : String → Result (List String)
resolve_data s = ok ("data" ∷ "a" ∷ [])

abbrev local_policy : SourceUriPolicy
local_policy = record {
  file_roots = ("srv" ∷ []) ∷ ("data" ∷ []) ∷ [];
  object_prefixes = [];
  resource_name = "Parquet source";
}

abbrev local_source : SplitResult
local_source = record { scheme = ""; netloc = ""; path = "/data/a"; query = ""; fragment = "" }

local_authorized :
    authorize_local accept resolve_data local_policy local_source "/data/a" ≡ ok "/data/a"
unfolding authorize_local local_path format join
local_authorized = refl

authorize_local-below_example :
    (local : String) × (root rest : List String) × (front back : List (List String)) × (local_path
        local_source "/data/a"
      ≡ ok local)
    × (ok ("data" ∷ "a" ∷ []) ≡ ok (root ++ rest))
    × (local_policy.file_roots ≡ front ++ root ∷ back)
    × ("/data/a" ≡ fspath (root ++ rest))
authorize_local-below_example =
    authorize_local-below resolve_data accept local_policy local_source "/data/a" "/data/a"
      local_authorized
