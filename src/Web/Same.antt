-- ===== src/Web/Same.antt =====
-- homework1/demo/utils.c and utils_https.c answer alike.
use inp.Common.{
  ℕ, ◌≡◌, ◌≢◌, refl, Bool, true, false, [], Option, none, some, if◌then◌else◌, not, arith,
}
use inp.Common.Bytes.{Bytes, text, bytes_eq}
use inp.Web.{
  HttpResponse, Tree, RequestLine, extract_file_path, full_path_of, index_path_of, ends_with_slash,
  exists, is_directory, read_file, opened_path,
}
use inp.Web.Plain
use inp.Web.Secure

-- The two results tell of the same bytes, sent in the way the connection asks for.
unfoldable pub IsSame : Bool → Plain.Outcome → Option Secure.Sent → Type 0
IsSame ssl plain none = (plain.ending ≡ Plain.crashed) × (plain.wire ≡ [])
IsSame true plain (some sent) =
    (plain.ending ≢ Plain.crashed) × (sent.on_socket ≡ []) × (sent.on_ssl ≡ plain.wire)
IsSame false plain (some sent) =
    (plain.ending ≢ Plain.crashed) × (sent.on_ssl ≡ []) × (sent.on_socket ≡ plain.wire)

send-IsSame :
    (ssl : Bool) (first second : Option ℕ) (response : HttpResponse)
    → IsSame ssl (Plain.send_http_response record { first = first; second = second } response) (
        some (
          Secure.send_http_response
            record { ssl_connection = ssl; first = first; second = second }
            response))
unfolding IsSame Plain.send_http_response Secure.send_http_response
send-IsSame true first none response = ground arith
send-IsSame true first (some n) response = ground arith
send-IsSame false first none response = ground arith
send-IsSame false first (some n) response = ground arith

if_IsSame :
    (ssl test : Bool) (p q : Plain.Outcome) (s t : Option Secure.Sent)
    → IsSame ssl p s
    → IsSame ssl q t
    → IsSame ssl (if test then p else q) (if test then s else t)
if_IsSame ssl true p q s t left right = left
if_IsSame ssl false p q s t left right = right

content-IsSame :
    (ssl : Bool) (first second : Option ℕ) (full_path : Bytes) (read : Option Bytes)
    → IsSame ssl (Plain.send_content record { first = first; second = second } full_path read) (
        Secure.send_200_response
          record { ssl_connection = ssl; first = first; second = second }
          (Secure.content_response full_path read))
unfolding IsSame
content-IsSame ssl first second full_path none = (refl, refl)
content-IsSame ssl first second full_path (some bytes) = send-IsSame ssl first second _

-- For a method and a path, both servers put the same bytes on the line and crash alike; with an SSL
-- connection the HTTPS server sends nothing in clear, and without one nothing through SSL.
pub answer_request-IsSame :
    (ssl : Bool) (first second : Option ℕ) (tree : Tree) (line : RequestLine)
    → IsSame ssl (Plain.answer_request record { first = first; second = second } tree line) (
        Secure.answer_request
          record { ssl_connection = ssl; first = first; second = second }
          tree
          line)
unfolding Plain.answer_request Secure.answer_request Plain.handle_200_response
    Secure.get_200_response Plain.handle_501_response Plain.handle_404_response
    Plain.handle_301_response Plain.handle_403_response Secure.get_501_response
    Secure.get_404_response Secure.get_301_response Secure.get_403_response
answer_request-IsSame ssl first second tree line =
    let full_path = full_path_of (extract_file_path line.path) in
    let content =
      content-IsSame ssl first second (opened_path full_path)
        (read_file (tree (opened_path full_path))) in
    if_IsSame ssl (not (bytes_eq line.method (text "GET"))) _ _ _ _ (send-IsSame ssl first second _)
      (if_IsSame ssl (not (exists (tree full_path))) _ _ _ _ (send-IsSame ssl first second _) (
        if_IsSame ssl (is_directory (tree full_path)) _ _ _ _
          (if_IsSame ssl (not (ends_with_slash full_path)) _ _ _ _ (send-IsSame ssl first second _)
            (if_IsSame ssl (not (exists (tree (index_path_of full_path)))) _ _ _ _
              (send-IsSame ssl first second _) content))
          content))
