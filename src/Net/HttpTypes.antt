-- ===== src/Net/HttpTypes.antt =====
-- acatl_network/http_types.h: methods, versions and the callbacks of a parser.
use acatl.Base.{ℕ, Bool, Bytes, codes}

pub data HttpMethod : Type 0 where
  get : HttpMethod
  post : HttpMethod
  put : HttpMethod
  delete : HttpMethod
  head : HttpMethod
  connect : HttpMethod
  options : HttpMethod
  trace : HttpMethod

-- `operator<<` of a method.
unfoldable pub method_text : HttpMethod → Bytes
method_text HttpMethod.get = codes "GET"
method_text HttpMethod.post = codes "POST"
method_text HttpMethod.put = codes "PUT"
method_text HttpMethod.delete = codes "DELETE"
method_text HttpMethod.head = codes "HEAD"
method_text HttpMethod.connect = codes "CONNECT"
method_text HttpMethod.options = codes "OPTIONS"
method_text HttpMethod.trace = codes "TRACE"

pub data HttpVersion : Type 0 where
  http_1_0 : HttpVersion
  http_1_1 : HttpVersion

-- `operator<<` of a version.
unfoldable pub version_text : HttpVersion → Bytes
version_text HttpVersion.http_1_0 = codes "HTTP/1.0"
version_text HttpVersion.http_1_1 = codes "HTTP/1.1"

-- The calls of `HttpCallbacks`; a status is its number.
pub data Call : Type 0 where
  on_message_begin : HttpMethod → Call
  on_status : ℕ → Bytes → Call
  on_url : Bytes → Call
  on_header_field : Bytes → Call
  on_header_value : Bytes → Call
  on_header_complete : HttpVersion → Call
  on_body : Bytes → Call
  on_message_complete : Bool → Call
