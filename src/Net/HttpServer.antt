-- ===== src/Net/HttpServer.antt =====
-- examples/http_server: the connection of the example server, over the parser of requests, the URL
-- parser and the operations on files.
pub mod Delivery
mod Examples
use acatl.Base.{
  ℕ, zero, suc, ◌+◌, ◌-◌, Bool, true, false, not, ◌&&◌, ◌||◌, Bytes, List, [], ◌∷◌, ◌++◌, Option,
  none, some, ◌==◌, ltb, length, if◌then◌else◌, bytes_eq, codes,
}
use acatl.Base.Table.{Table, put, insert}
use acatl.Core.Path.{relative_path, extension, drop}
use acatl.Core.Files.{Os, Outcome, returned, ErrorCode, success, failure, is_set, enoent}
use acatl.Core.Files
use acatl.Core.Files.Status.{exists_path}
use acatl.Core.Files.Places.{canonical}
use acatl.Net.HttpTypes.{HttpMethod, HttpVersion, version_text, Call}
use acatl.Net.HttpStatus.{http_status_to_string}
use acatl.Net.HttpCookie.{decimal}
use acatl.Net.HttpUrl.{Fields, Parsed, invalid_url, thrown, parsed, HttpUrl}
use acatl.Net.HttpUrl

pub record HttpRequest : Type 0 where
  pub method : HttpMethod
  pub version : HttpVersion
  pub url : Bytes
  pub header : Table Bytes

pub record HttpResponse : Type 0 where
  pub version : HttpVersion
  pub status : ℕ
  pub header : Table Bytes

-- `operator<<` of a response.
unfoldable pub header_lines : Table Bytes → Bytes
header_lines [] = []
header_lines ((k, v) ∷ m) = k ++ (codes ": " ++ (v ++ (13 ∷ 10 ∷ header_lines m)))

unfoldable pub response_text : HttpResponse → Bytes
unfolding header_lines version_text http_status_to_string
response_text r =
    version_text r.version
    ++ (b' '
        ∷ (http_status_to_string r.status ++ (13 ∷ 10 ∷ (header_lines r.header ++ (13 ∷ 10 ∷ [])))))

-- `extension_to_type`; paths are compared byte by byte, as in the locale of C.
abbrev mappings : Table Bytes
mappings =
    (codes ".txt", codes "text/plain")
    ∷ (codes ".xhtml", codes "application/xhtml+xml")
    ∷ (codes ".css", codes "text/css")
    ∷ (codes ".htm", codes "text/html")
    ∷ (codes ".html", codes "text/html")
    ∷ (codes ".js", codes "text/javascript")
    ∷ (codes ".gif", codes "image/gif")
    ∷ (codes ".jpg", codes "image/jpeg")
    ∷ (codes ".png", codes "image/png")
    ∷ []

unfoldable pub type_in : Table Bytes → Bytes → Bytes
type_in [] e = codes "text/plain"
type_in ((k, v) ∷ m) e = if bytes_eq k e then v else type_in m e

unfoldable pub extension_to_type : Bytes → Bytes
unfolding type_in
extension_to_type e = type_in mappings e

-- The connection; `iter` is the key of `_iter`, `writes` the lengths of the writes that the socket
-- has not answered, and `aborted` says that an exception has left a callback.
pub record Connection : Type 0 where
  pub request : HttpRequest
  pub iter : Option Bytes
  pub write_buf : Bytes
  pub writes : List ℕ
  pub aborted : Bool

-- What is answered: the status, the body and the content type, if there is one.
abbrev pub Content : Type 0
Content = ℕ × Bytes × Option Bytes

abbrev pub not_found : Content
not_found = (404, codes "File not found!", none)

-- `resize` and `memcpy`.
unfoldable pub overwrite : Bytes → Bytes → Bytes
overwrite r buf = r ++ drop (length r) buf

unfoldable pub do_write : ℕ → Connection → Connection
do_write n c = if ltb 0 n then record c { writes = c.writes ++ (n ∷ []) } else c

unfoldable pub send_text : Bytes → Connection → Connection
unfolding overwrite do_write
send_text r c = do_write (length r) (record c { write_buf = overwrite r c.write_buf })

-- The response of a request, on what is answered; a length below 2 ^ 64 has at most twenty digits.
unfoldable pub response_of : HttpVersion → Bool → Content → HttpResponse
response_of version close (status, body, kind) =
    let connection =
      (codes "Connection", (if close then codes "close" else codes "keep-alive")) ∷ [] in
    let typed : Table Bytes = elim kind [
      | none ↦ connection
      | some t ↦ put (codes "Content-Type") t connection
    ] in
    record {
      version = version;
      status = status;
      header = put (codes "Content-Length") (decimal 20 (length body)) typed;
    }

unfoldable pub send_response : Bool → Content → Connection → Connection
unfolding send_text response_text response_of
send_response close content c =
    send_text content.1 (send_text (response_text (response_of c.request.version close content)) c)

module _ {ℓ} {W : Type ℓ} (os : Os W) (read_file : W → Bytes → Option Bytes)
    (find_fields : Bytes → Option Fields) where
  -- `load_file`; `read_file` is what a `std::ifstream` reads, and none if it does not open.
  unfoldable pub load_file : W → Bytes → ErrorCode → Bytes × ErrorCode
  load_file w p ec = elim (read_file w p) [ none ↦ ([], failure enoent) | some text ↦ (text, ec) ]

  unfoldable pub loaded : Bytes → Bytes × ErrorCode → Content
  unfolding extension_to_type
  loaded p (text, ec) =
      if is_set ec then not_found else (200, text, some (extension_to_type (extension p)))

  -- What is answered for a path that `canonical` gives.
  unfoldable pub file_content : W → Bytes × ErrorCode → Content
  unfolding loaded load_file
  file_content w (p, ec) =
      let (there, ec') = exists_path os w p in
      if is_set ec || not there then not_found else loaded p (load_file w p ec')

  -- The answer to a URL; none is an exception.
  unfoldable pub url_content : W → Bytes → Parsed → Option Content
  unfolding file_content canonical
  url_content w root invalid_url = some (400, [], none)
  url_content w root thrown = none
  url_content w root (parsed u) = elim (canonical os 3 w (relative_path u.path) root success) [
    | some (returned r) ↦ some (file_content w r)
    | _ ↦ none
  ]

  unfoldable pub complete : W → Bytes → Bool → Connection → Connection
  unfolding url_content send_response HttpUrl.parse
  complete w root close c = elim (url_content w root (HttpUrl.parse find_fields c.request.url)) [
    | none ↦ record c { aborted = true }
    | some content ↦ send_response close content c
  ]

  abbrev with_request : (HttpRequest → HttpRequest) → Connection → ℕ × Connection
  with_request f c = (0, record c { request = f c.request })

  -- The callbacks.
  unfoldable pub callback : W → Bytes → Call → Connection → ℕ × Connection
  unfolding complete
  callback w root (Call.on_message_begin HttpMethod.get) c =
      with_request (λ r. record r { method = HttpMethod.get }) c
  callback w root (Call.on_message_begin HttpMethod.post) c =
      with_request (λ r. record r { method = HttpMethod.post }) c
  callback w root (Call.on_message_begin m) c = (1, c)
  callback w root (Call.on_status code text) c = (0, c)
  callback w root (Call.on_url url) c = with_request (λ r. record r { url = url }) c
  callback w root (Call.on_header_field field) c = (
    0,
    record c {
      request = record c.request { header = insert field [] c.request.header };
      iter = some field;
    },
  )
  callback w root (Call.on_header_value value) c = elim c.iter [
    | none ↦ (0, c)
    | some field ↦ with_request (λ r. record r { header = put field value r.header }) c
  ]
  callback w root (Call.on_header_complete version) c =
      with_request (λ r. record r { version = version }) c
  callback w root (Call.on_body text) c = (0, c)
  callback w root (Call.on_message_complete close) c = (0, complete w root close c)
