-- ===== src/Web/Plain.antt =====
-- homework1/demo/utils.c and server.c: the HTTP server with a thread for each client.
use inp.Common.{ℕ, [], ◌∷◌, ◌++◌, Option, none, some, ◌==◌, if◌then◌else◌, length, not}
use inp.Common.Bytes.{Bytes, text, bytes_eq}
use inp.Web.{
  HttpResponse, Tree, buffer_size, is_terminated, c_string, decode_with, extract_file_path,
  RequestLine, scan_request, full_path_of, index_path_of, ends_with_slash, exists, is_directory,
  read_file, mime_type, opened_path, redirect_header, header_of, written,
}

-- How the process goes on after a request: it runs, it has left by `errquit`, or it has used a `NULL` or
-- gone beyond an array, and C says no more of it.
pub data Ending : Type 0 where
  running exited crashed : Ending

pub record Outcome : Type 0 where
  pub wire : Bytes
  pub ending : Ending

-- What the calls of `write` on the socket give, for the header and for the content.
pub record Socket : Type 0 where
  pub first : Option ℕ
  pub second : Option ℕ

abbrev pub plus_as_space : ℕ → ℕ
plus_as_space c = if c == b'+' then b' ' else c

unfoldable pub url_decode : Bytes → Bytes
url_decode url = decode_with plus_as_space url

unfoldable pub send_http_response : Socket → HttpResponse → Outcome
send_http_response socket response =
    if response.status_code == 301
    then record { wire = written socket.first (redirect_header response); ending = running }
    else record {
      wire = written socket.first (header_of response) ++ written socket.second response.content;
      ending = elim socket.second [ none ↦ exited | some n ↦ running ];
    }

abbrev pub page_501 : Bytes
page_501 = text "<html><body><h1>501 Not Implemented</h1></body></html>"

abbrev pub page_404 : Bytes
page_404 = text "<html><body><h1>404 Not Found</h1></body></html>"

abbrev pub page_403 : Bytes
page_403 = text "<html><body><h1>403 Forbidden</h1></body></html>"

unfoldable pub handle_501_response : Socket → Outcome
handle_501_response socket = send_http_response socket record {
  status_code = 501;
  status_description = text "Not Implemented";
  content = page_501;
  content_type = text "text/html";
  location = [];
  content_length = length page_501;
}

unfoldable pub handle_404_response : Socket → Outcome
handle_404_response socket = send_http_response socket record {
  status_code = 404;
  status_description = text "Not Found";
  content = page_404;
  content_type = text "text/html";
  location = [];
  content_length = length page_404;
}

unfoldable pub handle_301_response : Socket → Bytes → Outcome
handle_301_response socket file_path = send_http_response socket record {
  status_code = 301;
  status_description = text "Moved Permanently";
  content = [];
  content_type = text "text/html";
  location = file_path ++ b'/' ∷ [];
  content_length = 0;
}

unfoldable pub handle_403_response : Socket → Outcome
handle_403_response socket = send_http_response socket record {
  status_code = 403;
  status_description = text "Forbidden";
  content = page_403;
  content_type = text "text/html";
  location = [];
  content_length = length page_403;
}

-- `handle200Response` from `fopen` on.
abbrev pub send_content : Socket → Bytes → Option Bytes → Outcome
send_content socket full_path none = record { wire = []; ending = crashed }
send_content socket full_path (some file_content) = send_http_response socket record {
  status_code = 200;
  status_description = text "OK";
  content = file_content;
  content_type = mime_type full_path;
  location = [];
  content_length = length file_content;
}

unfoldable pub handle_200_response : Socket → Tree → Bytes → Outcome
handle_200_response socket tree full_path =
    send_content socket (opened_path full_path) (read_file (tree (opened_path full_path)))

-- `handleHTTPRequest` behind `sscanf`.
unfoldable pub answer_request : Socket → Tree → RequestLine → Outcome
answer_request socket tree line =
    let file_path = extract_file_path line.path in
    let full_path = full_path_of file_path in
    if not (bytes_eq line.method (text "GET"))
    then handle_501_response socket
    else if not (exists (tree full_path))
    then handle_404_response socket
    else if is_directory (tree full_path)
    then (if not (ends_with_slash full_path)
        then handle_301_response socket file_path
        else if not (exists (tree (index_path_of full_path)))
        then handle_403_response socket
        else handle_200_response socket tree full_path)
    else handle_200_response socket tree full_path

unfoldable pub handle_http_request : Socket → Tree → RequestLine → Bytes → Outcome
handle_http_request socket tree stale request =
    answer_request socket tree (scan_request stale request)

-- `handle_client`: `memory` is what stands in `request_buffer` and behind it after the bytes received.
unfoldable pub handle_client : Socket → Tree → RequestLine → Option Bytes → Bytes → Outcome
handle_client socket tree stale none memory = record { wire = []; ending = running }
handle_client socket tree stale (some []) memory = record { wire = []; ending = running }
handle_client socket tree stale (some (c ∷ cs)) memory =
    let request_buffer = c ∷ (cs ++ memory) in
    if is_terminated buffer_size request_buffer
    then handle_http_request socket tree stale (c_string (url_decode (c_string request_buffer)))
    else record { wire = []; ending = crashed }
