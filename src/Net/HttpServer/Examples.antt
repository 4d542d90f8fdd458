-- ===== src/Net/HttpServer/Examples.antt =====
-- examples/http_server/connection.h: a request that leaves the document root, and an answer.
use acatl.Base.{
  ◌≡◌, refl, true, false, Bytes, [], ◌∷◌, ◌++◌, Option, none, some, length, codes, bytes_eq,
  if◌then◌else◌, arith,
}
use acatl.Core.Path.{append, relative_path, extension, take, root_directory}
use acatl.Core.Files.{Os, ok, fail, enoent, success, Stat}
use acatl.Core.Files.Places.{current_or_throw}
use acatl.Net.HttpTypes.{HttpMethod, HttpVersion}
use acatl.Net.HttpUrl.{HttpUrl, Fields, parsed}
use acatl.Net.HttpServer.{
  Connection, Content, url_content, extension_to_type, response_text, response_of, send_response,
}
use acatl.Net.HttpServer.Delivery.{IsRooted, url_content-delivers, send_response-overwrites}

abbrev a_stat : Stat
a_stat = record { st_mode = 1; st_size = 6; st_dev = 1; st_ino = 1 }

-- A system whose only file is `/etc/passwd`, with the document root `/srv`.
abbrev passwd : Bytes
passwd = codes "/etc/passwd"

abbrev one_file : Os (Unit {0})
one_file = record {
  isreg = λ m. true;
  isdir = λ m. false;
  isblk = λ m. false;
  ischr = λ m. false;
  isfifo = λ m. false;
  issock = λ m. false;
  islnk = λ m. false;
  stat = λ w p. if bytes_eq p passwd then ok a_stat else fail enoent;
  lstat = λ w p. if bytes_eq p passwd then ok a_stat else fail enoent;
  opendir = λ w p. fail enoent;
  readlink = λ w p n. fail enoent;
  realpath = λ w p. if bytes_eq p (codes "/srv/../etc/passwd") then ok passwd else fail enoent;
  getcwd = λ w. ok (codes "/srv");
  getenv = λ w name. none;
  path_max = 4096;
  mkdir = λ w p mode. (success, w);
  unlink = λ w p. (success, w);
  make_symlink = λ w to p. (success, w);
  chmod = λ w p mode. (success, w);
  chdir = λ w p. (success, w);
  mkdtemp = λ w p. (fail enoent, w);
}

abbrev read_passwd : Unit {0} → Bytes → Option Bytes
read_passwd w p = if bytes_eq p passwd then some (codes "root::0") else none

abbrev no_fields : Bytes → Option Fields
no_fields url = none

abbrev up : HttpUrl
up = record {
  schema = [];
  user_info = [];
  host = [];
  port = 0;
  path = codes "/../etc/passwd";
  query = [];
  fragment = [];
}

srv-IsRooted : IsRooted one_file read_passwd no_fields tt (codes "/srv") (codes "/srv")
unfolding root_directory current_or_throw
srv-IsRooted = (refl, refl, refl, refl)

up_unrooted : root_directory (relative_path up.path) ≡ []
unfolding root_directory relative_path
up_unrooted = refl

url_content-delivers_example :
    url_content one_file read_passwd no_fields tt (codes "/srv") (parsed up)
    ≡ some (200, codes "root::0", some (extension_to_type (extension passwd)))
unfolding root_directory relative_path append bytes_eq
url_content-delivers_example =
    url_content-delivers one_file read_passwd no_fields tt (codes "/srv") (codes "/srv") passwd
      (codes "root::0") up a_stat srv-IsRooted refl refl refl refl refl

abbrev fresh : Connection
fresh = record {
  request = record {
    method = HttpMethod.get;
    version = HttpVersion.http_1_1;
    url = codes "/a.txt";
    header = [];
  };
  iter = none;
  write_buf = [];
  writes = [];
  aborted = false;
}

abbrev a_text : Content
a_text = (200, codes "hello", some (codes "text/plain"))

send_response-overwrites_example :
    ((send_response true a_text fresh).writes
      ≡ fresh.writes
        ++ (length (response_text (response_of HttpVersion.http_1_1 true a_text)) ∷ 5 ∷ []))
    × (take 5 (send_response true a_text fresh).write_buf ≡ codes "hello")
send_response-overwrites_example = send_response-overwrites true a_text fresh (omega arith)
