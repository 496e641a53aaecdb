-- ===== src/Web/Secure.antt =====
-- homework1/demo/utils_https.c and server_https.c: the server for HTTP and HTTPS with one thread.
use inp.Common.{
  ℕ, Bool, true, false, [], ◌∷◌, ◌++◌, Option, none, some, ◌==◌, if◌then◌else◌, length, not,
}
use inp.Common.Bytes.{Bytes, text, bytes_eq}
use inp.Web.{
  HttpResponse, Tree, buffer_size, is_terminated, c_string, decode_with, extract_file_path,
  RequestLine, scan_request, full_path_of, index_path_of, ends_with_slash, exists, is_directory,
  read_file, mime_type, opened_path, redirect_header, header_of, written,
}

-- `struct ClientInfo`, with what the calls of `write` or `SSL_write` on it give; the pointer
-- `ssl_connection` only counts as `NULL` or not.
pub record ClientInfo : Type 0 where
  pub ssl_connection : Bool
  pub first : Option ℕ
  pub second : Option ℕ

-- What has gone to the socket in clear and what through the SSL connection.
pub record Sent : Type 0 where
  pub on_socket : Bytes
  pub on_ssl : Bytes

unfoldable pub url_decode : Bytes → Bytes
url_decode url = decode_with (λ c. c) url

unfoldable pub send_http_response : ClientInfo → HttpResponse → Sent
send_http_response client_info response =
    if client_info.ssl_connection
    then (if response.status_code == 301
        then record {
          on_socket = [];
          on_ssl = written client_info.first (redirect_header response);
        }
        else record {
          on_socket = [];
          on_ssl =
              written client_info.first (header_of response)
              ++ written client_info.second response.content;
        })
    else if response.status_code == 301
    then record { on_socket = written client_info.first (redirect_header response); on_ssl = [] }
    else record {
      on_socket =
          written client_info.first (header_of response)
          ++ written client_info.second response.content;
      on_ssl = [];
    }

unfoldable pub get_501_response : HttpResponse
get_501_response = record {
  status_code = 501;
  status_description = text "Not Implemented";
  content = text "<html><body><h1>501 Not Implemented</h1></body></html>";
  content_type = text "text/html";
  location = [];
  content_length = length (text "<html><body><h1>501 Not Implemented</h1></body></html>");
}

unfoldable pub get_404_response : HttpResponse
get_404_response = record {
  status_code = 404;
  status_description = text "Not Found";
  content = text "<html><body><h1>404 Not Found</h1></body></html>";
  content_type = text "text/html";
  location = [];
  content_length = length (text "<html><body><h1>404 Not Found</h1></body></html>");
}

unfoldable pub get_301_response : Bytes → HttpResponse
get_301_response file_path = record {
  status_code = 301;
  status_description = text "Moved Permanently";
  content = [];
  content_type = text "text/html";
  location = file_path ++ b'/' ∷ [];
  content_length = 0;
}

unfoldable pub get_403_response : HttpResponse
get_403_response = record {
  status_code = 403;
  status_description = text "Forbidden";
  content = text "<html><body><h1>403 Forbidden</h1></body></html>";
  content_type = text "text/html";
  location = [];
  content_length = length (text "<html><body><h1>403 Forbidden</h1></body></html>");
}

-- `get200Response` from `fopen` on; none is a crash, when `fopen` has given `NULL`.
abbrev pub content_response : Bytes → Option Bytes → Option HttpResponse
content_response full_path none = none
content_response full_path (some file_content) = some record {
  status_code = 200;
  status_description = text "OK";
  content = file_content;
  content_type = mime_type full_path;
  location = [];
  content_length = length file_content;
}

unfoldable pub get_200_response : Tree → Bytes → Option HttpResponse
get_200_response tree full_path =
    content_response (opened_path full_path) (read_file (tree (opened_path full_path)))

-- The last two lines of `handleHTTPRequest`.
abbrev pub send_200_response : ClientInfo → Option HttpResponse → Option Sent
send_200_response client_info none = none
send_200_response client_info (some response) = some (send_http_response client_info response)

-- `handleHTTPRequest` behind `sscanf`.
unfoldable pub answer_request : ClientInfo → Tree → RequestLine → Option Sent
answer_request client_info tree line =
    let file_path = extract_file_path line.path in
    let full_path = full_path_of file_path in
    if not (bytes_eq line.method (text "GET"))
    then some (send_http_response client_info get_501_response)
    else if not (exists (tree full_path))
    then some (send_http_response client_info get_404_response)
    else if is_directory (tree full_path)
    then (if not (ends_with_slash full_path)
        then some (send_http_response client_info (get_301_response file_path))
        else if not (exists (tree (index_path_of full_path)))
        then some (send_http_response client_info get_403_response)
        else send_200_response client_info (get_200_response tree full_path))
    else send_200_response client_info (get_200_response tree full_path)

unfoldable pub handle_http_request : ClientInfo → Tree → RequestLine → Bytes → Option Sent
handle_http_request client_info tree stale request =
    answer_request client_info tree (scan_request stale request)

-- The bytes in and behind `request_buffer` after a call of `read` or `SSL_read`, none if it failed.
abbrev pub buffer_after : Option Bytes → Bytes → Bytes
buffer_after none memory = memory
buffer_after (some bytes) memory = bytes ++ memory

-- A connection that `accept` gives.
pub record Connection : Type 0 where
  pub handshake : Bool
  pub received : Option Bytes
  pub memory : Bytes
  pub stale : RequestLine
  pub first : Option ℕ
  pub second : Option ℕ

-- `urlDecode` and `handleHTTPRequest` on a `request_buffer`; none is a crash.
unfoldable pub on_buffer : ClientInfo → Tree → RequestLine → Bytes → Option Sent
on_buffer client_info tree stale request_buffer =
    if is_terminated buffer_size request_buffer
    then handle_http_request client_info tree stale
        (c_string (url_decode (c_string request_buffer)))
    else none

-- The two branches of the loop of `main` on a connection.
unfoldable pub on_http : Tree → Connection → Option Sent
on_http tree c =
    on_buffer record { ssl_connection = false; first = c.first; second = c.second } tree c.stale
      (buffer_after c.received c.memory)

unfoldable pub on_https : Tree → Connection → Option Sent
on_https tree c =
    if c.handshake
    then on_buffer record { ssl_connection = true; first = c.first; second = c.second } tree c.stale
        (buffer_after c.received c.memory)
    else some record { on_socket = []; on_ssl = [] }
