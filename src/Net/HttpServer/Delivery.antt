-- ===== src/Net/HttpServer/Delivery.antt =====
-- examples/http_server/connection.h: which file a request is answered with, and what the two writes of
-- an answer leave in the buffer.
use acatl.Base.{
  ◌<◌, ◌≡◌, refl, ap, ◌∙◌, inl, inr, Bool, true, false, Bytes, [], ◌∷◌, ◌++◌, append_assoc, Option,
  some, ltb, length, length-append, arith, Bool-cases,
}
use acatl.Core.Path.{append, relative_path, extension, take, drop}
use acatl.Core.Files.{Os, returned, success, ok, Stat}
use acatl.Core.Files.Status.{
  exists, exists_path, status, status_of, set_status, status_known, type_of,
}
use acatl.Core.Files.Places.{
  canonical, canonical_at, absolute, absolute_over, over, current_or_throw, has_root_name,
  has_root_directory, absolute_rooted, absolute_step,
}
use acatl.Net.HttpTypes.{version_text}
use acatl.Net.HttpUrl.{Fields, HttpUrl, parsed}
use acatl.Net.HttpServer.{
  Connection, Content, HttpResponse, overwrite, do_write, send_text, send_response, response_text,
  response_of, load_file, loaded, file_content, url_content, extension_to_type,
}

module _ {ℓ} {W : Type ℓ} (os : Os W) (read_file : W → Bytes → Option Bytes)
    (find_fields : Bytes → Option Fields) where
  -- A root directory that is absolute, and a current path, neither with a root name.
  abbrev pub IsRooted : W → Bytes → Bytes → Type 0
  IsRooted w root cwd =
      (has_root_directory root ≡ true)
      × (has_root_name root ≡ false)
      × (has_root_name cwd ≡ false)
      × (current_or_throw os w ≡ returned cwd)

  absolute_below :
      (w : W) (root cwd p : Bytes)
      → IsRooted w root cwd
      → has_root_directory p ≡ false
      → has_root_name p ≡ false
      → absolute os 3 w p root ≡ some (returned (append root p))
  unfolding absolute_over
  absolute_below w root cwd p (rooted, unnamed, plain, at) h n =
      absolute_step os 2 w p root cwd at h
      ∙ ap (λ o. over os o p root) (absolute_rooted os 1 w root cwd rooted)
      ∙ rw (rooted, unnamed, plain, h, n) refl

  canonical_below :
      (w : W) (root cwd p f : Bytes)
      → IsRooted w root cwd
      → has_root_directory p ≡ false
      → has_root_name p ≡ false
      → os.realpath w (append root p) ≡ ok f
      → canonical os 3 w p root success ≡ some (returned (f, success))
  unfolding canonical canonical_at
  canonical_below w root cwd p f r h n real =
      rw (canonical, absolute_below w root cwd p r h n, canonical_at, real) refl

  exists_path-ok :
      (w : W) (f : Bytes) (sb : Stat) → os.stat w f ≡ ok sb → exists_path os w f ≡ (true, success)
  unfolding exists_path status status_of set_status type_of exists status_known
  exists_path-ok w f sb e = rw (exists_path, status, e) (ground arith)

  file_content-ok :
      (w : W) (f text : Bytes) (sb : Stat)
      → os.stat w f ≡ ok sb
      → read_file w f ≡ some text
      → file_content os read_file find_fields w (f, success)
        ≡ (200, text, some (extension_to_type (extension f)))
  unfolding file_content loaded load_file
  file_content-ok w f text sb e r =
      let there = exists_path-ok w f sb e in
      rw (ap (λ x. x.0) there, load_file, r, ap (λ x. x.1) there) refl

  -- Where the document root is absolute, and it and the current path have no root name, a request
  -- whose path, without its leading separators, has no root is answered with status 200 and the text
  -- of whatever file the system resolves that path behind the root to, inside the root or not, if
  -- that file is there and opens.
  pub url_content-delivers :
      (w : W) (root cwd f text : Bytes) (u : HttpUrl) (sb : Stat)
      → IsRooted w root cwd
      → has_root_directory (relative_path u.path) ≡ false
      → has_root_name (relative_path u.path) ≡ false
      → os.realpath w (append root (relative_path u.path)) ≡ ok f
      → os.stat w f ≡ ok sb
      → read_file w f ≡ some text
      → url_content os read_file find_fields w root (parsed u)
        ≡ some (200, text, some (extension_to_type (extension f)))
  unfolding url_content
  url_content-delivers w root cwd f text u sb r h n real e t =
      rw (url_content, canonical_below w root cwd (relative_path u.path) f r h n real)
        (ap some (file_content-ok w f text sb e t))

take-append : (r s : Bytes) → take (length r) (r ++ s) ≡ r
take-append [] s = refl
take-append (c ∷ r) s = ap (λ x. c ∷ x) (take-append r s)

response_text-pos : (r : HttpResponse) → 0 < length (response_text r)
unfolding response_text
response_text-pos r = omega (arith, length-append {0} (version_text r.version))

send_text-writes :
    (r : Bytes) (c : Connection)
    → 0 < length r
    → (send_text r c).writes ≡ c.writes ++ (length r ∷ [])
unfolding send_text do_write
send_text-writes r c h = let t : ltb 0 (length r) ≡ true = ground arith in rw t refl

send_text-buffer : (r : Bytes) (c : Connection) → take (length r) (send_text r c).write_buf ≡ r
unfolding send_text do_write overwrite
send_text-buffer r c = elim (Bool-cases (ltb 0 (length r))) [
  | inl t ↦ rw t (take-append r (drop (length r) c.write_buf))
  | inr f ↦ rw f (take-append r (drop (length r) c.write_buf))
]

-- An answer with a body makes two writes from one buffer, of the header's length and of the body's,
-- neither of which the socket need have answered before the other is made, and leaves the body at
-- the front of the buffer, where the first write was to find the header.
pub send_response-overwrites :
    (close : Bool) (content : Content) (c : Connection)
    → 0 < length content.1
    → let head = response_text (response_of c.request.version close content) in
      let d = send_response close content c in
      (d.writes ≡ c.writes ++ (length head ∷ length content.1 ∷ []))
      × (take (length content.1) d.write_buf ≡ content.1)
unfolding send_response
send_response-overwrites close content c h =
    let head = response_text (response_of c.request.version close content) in
    (
      send_text-writes content.1 (send_text head c) h
          ∙ ap (λ ws. ws ++ (length content.1 ∷ []))
              (send_text-writes head c
                (response_text-pos (response_of c.request.version close content)))
          ∙ append_assoc c.writes (length head ∷ []) (length content.1 ∷ []),
      send_text-buffer content.1 (send_text head c),
    )
