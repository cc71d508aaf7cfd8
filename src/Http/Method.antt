-- ===== src/Http/Method.antt =====
-- include/request_methods.hpp, and the two conversions of `HttpRequest` (HttpRequest.cpp).
use technopark_highload.Prelude.{◌≡◌, ◌≢◌, refl, arith, if◌then◌else◌, Lacks, Bytes, codes}
use technopark_highload.Text.Laws.{equal_iff}
use technopark_highload.Text.{equal}

-- The enumeration; `UNKNOWN` is -1.
pub data RequestMethod : Type 0 where
  unknown get post options head put patch delete connect : RequestMethod

unfoldable pub request_method_to_string : RequestMethod → Bytes
request_method_to_string get = codes "GET"
request_method_to_string post = codes "POST"
request_method_to_string options = codes "OPTIONS"
request_method_to_string head = codes "HEAD"
request_method_to_string put = codes "PUT"
request_method_to_string patch = codes "PATCH"
request_method_to_string delete = codes "DELETE"
request_method_to_string connect = codes "CONNECT"
request_method_to_string unknown = codes "UNKNOWN"

unfoldable pub string_to_request_method : Bytes → RequestMethod
string_to_request_method s =
    if equal s (codes "GET")
    then get
    else if equal s (codes "POST")
    then post
    else if equal s (codes "OPTIONS")
    then options
    else if equal s (codes "HEAD")
    then head
    else if equal s (codes "PUT")
    then put
    else if equal s (codes "PATCH")
    then patch
    else if equal s (codes "DELETE")
    then delete
    else if equal s (codes "CONNECT")
    then connect
    else unknown

-- Every method is read back from its name.
pub string_to_request_method-request_method_to_string :
    (m : RequestMethod) → string_to_request_method (request_method_to_string m) ≡ m
unfolding string_to_request_method request_method_to_string equal
string_to_request_method-request_method_to_string unknown = refl
string_to_request_method-request_method_to_string _ = refl

-- Only the name of a method is read as that method.
pub request_method_to_string-string_to_request_method :
    (s : Bytes)
    → string_to_request_method s ≢ unknown
    → request_method_to_string (string_to_request_method s) ≡ s
unfolding string_to_request_method request_method_to_string
request_method_to_string-string_to_request_method s known = ground (
  arith,
  equal_iff s (codes "GET"),
  equal_iff s (codes "POST"),
  equal_iff s (codes "OPTIONS"),
  equal_iff s (codes "HEAD"),
  equal_iff s (codes "PUT"),
  equal_iff s (codes "PATCH"),
  equal_iff s (codes "DELETE"),
  equal_iff s (codes "CONNECT"),
)

-- The names hold neither a space nor the end of a line.
pub no_space-request_method_to_string : (m : RequestMethod) → Lacks 32 (request_method_to_string m)
unfolding request_method_to_string
no_space-request_method_to_string unknown = omega arith
no_space-request_method_to_string _ = omega arith

pub no_return-request_method_to_string : (m : RequestMethod) → Lacks 13 (request_method_to_string m)
unfolding request_method_to_string
no_return-request_method_to_string unknown = omega arith
no_return-request_method_to_string _ = omega arith
