-- ===== src/Web/Tests.antt =====
-- Runs of the web servers of homework1/demo.
use inp.Common.{
  ℕ, ◌<◌, ◌⊎◌, ◌≡◌, ◌≢◌, refl, inr, Bool, true, false, List, [], ◌∷◌, ◌++◌, Option, none, some,
  ◌==◌, if◌then◌else◌, length, All, sym, ap, ◌∙◌, false-true, arith,
}
use inp.Common.Bytes.{Bytes, text}
use inp.Common.Text.{is_space}
use inp.Web.{
  buffer_size, is_terminated, Tree, Node, missing, directory, file, RequestLine, c_string,
  decode_with, extract_file_path, mime_type, scan_request, full_path_of, index_path_of,
  ends_with_slash,
}
use inp.Web.Plain
use inp.Web.Secure
use inp.Web.Decode.{percent_encode, url_decode-percent_encode}
use inp.Web.Request.{request_fits}
use inp.Web.Same.{IsSame, answer_request-IsSame}
use inp.Web.Site.{Answer, serve, response_with, IsPosix}
use inp.Web.Get.{Keeps, get_request, IsTextByte}
use inp.Web.Answered.{IsNameByte, read_connection}
use inp.Web.Faults.{inner_index_lost, blank_cuts_path}
use inp.Web.Pool.{start_pool, IsPool, IsSized, accept_all, accept_all-IsPool}
use inp.Web.Epoll.{
  Server, http, Run, arrives, takes, done, more, arrive, on_event, IsLive, IsLater, listener,
  Run-IsLater,
}

last_of : Bytes → ℕ
last_of [] = 0
last_of (c ∷ []) = c
last_of (c ∷ d ∷ cs) = last_of (d ∷ cs)

last_of-append : (d : Bytes) (c : ℕ) (cs : Bytes) → last_of (d ++ c ∷ cs) ≡ last_of (c ∷ cs)
unfolding last_of
last_of-append [] c cs = refl
last_of-append (a ∷ []) c cs = refl
last_of-append (a ∷ b ∷ d) c cs = last_of-append (b ∷ d) c cs

-- A site where the last byte of a path tells what it names.
node_at : ℕ → Node
node_at c =
    if c == b'%'
    then file (7 ∷ 8 ∷ [])
    else if c == b'/'
    then directory
    else if c == b'l'
    then file (9 ∷ [])
    else missing

abbrev site : Tree
site path = node_at (last_of path)

site-IsPosix : IsPosix site
unfolding IsPosix node_at last_of text
site-IsPosix = (
  λ d. ap node_at (
      last_of-append d b'/' (text "/index.html") ∙ sym (last_of-append d b'/' (text "index.html"))),
  λ d. inr (ap node_at (last_of-append d b'/' [])),
)

abbrev stale_line : RequestLine
stale_line = record { method = []; path = [] }

name_of : Answer → Bytes
name_of (Answer.ok name bytes) = name
name_of Answer.not_found = []
name_of Answer.forbidden = []
name_of Answer.broken = []
name_of (Answer.moved target) = []

abbrev received : Bytes
received = text "GET /a%25?q HT"

-- The buffer holds a zero and what was there before it.
abbrev memory : Bytes
memory = text "TP/1.0" ++ 0 ∷ text "xy"

received_ends : is_terminated buffer_size (received ++ memory) ≡ true
unfolding is_terminated text
received_ends = refl

-- The name is a percent sign and a byte that is no ASCII.
url_decode-percent_encode_example :
    (Plain.url_decode (percent_encode (b'%' ∷ 200 ∷ [])) ≡ b'%' ∷ 200 ∷ [])
    × (Secure.url_decode (percent_encode (b'%' ∷ 200 ∷ [])) ≡ b'%' ∷ 200 ∷ [])
url_decode-percent_encode_example =
    url_decode-percent_encode (b'%' ∷ 200 ∷ []) (omega arith, (omega arith, tt))

request_fits_example :
    let decoded = decode_with Plain.plus_as_space (c_string (received ++ memory)) in
    let line = scan_request stale_line (c_string decoded) in
    let file_path = extract_file_path line.path in
    (length decoded < buffer_size)
    × ((line.method ≡ stale_line.method) ⊎ (length line.method < 10))
    × ((line.path ≡ stale_line.path)
        ⊎ ((length line.path < 256)
            × (full_path_of file_path ≡ text "html" ++ file_path)
            × (index_path_of (full_path_of file_path)
                ≡ full_path_of file_path ++ text "/index.html")))
request_fits_example =
    request_fits Plain.plus_as_space stale_line (received ++ memory) received_ends

abbrev file_line : RequestLine
file_line = record { method = text "GET"; path = text "/a%" }

answer_request-IsSame_example :
    IsSame true (Plain.answer_request record { first = some 500; second = none } site file_line) (
      Secure.answer_request
        record { ssl_connection = true; first = some 500; second = none }
        site
        file_line)
answer_request-IsSame_example = answer_request-IsSame true (some 500) none site file_line

abbrev inner_line : RequestLine
inner_line = record { method = text "GET"; path = text "/d/" }

abbrev ssl_client : Secure.ClientInfo
ssl_client = record { ssl_connection = true; first = some 500; second = some 500 }

inner_facts :
    (text "/d/" ≢ text "/")
    × (extract_file_path (text "/d/") ≡ text "/d/")
    × (site (text "html/d/") ≡ directory)
    × (ends_with_slash (text "/d/") ≡ true)
    × (site (text "html/d/index.html") ≡ file (9 ∷ []))
unfolding text extract_file_path last_of node_at ends_with_slash
inner_facts = (λ h. ground arith, refl, refl, refl, refl)

inner_index_lost_example :
    (Secure.answer_request ssl_client site inner_line
      ≡ Secure.send_200_response ssl_client
          (response_with mime_type (Answer.ok (text "html/d/") [])))
    × (serve site (text "/d/") ≡ Answer.ok (text "html/d/index.html") (9 ∷ []))
unfolding text
inner_index_lost_example =
    inner_index_lost ssl_client site inner_line b'/' (text "d/") (9 ∷ []) site-IsPosix (omega arith)
      inner_facts.0 refl inner_facts.1 inner_facts.2 inner_facts.3 inner_facts.4

no_plus-Keeps : Keeps (λ c. c)
unfolding Keeps
no_plus-Keeps = ((λ c h. refl), refl, refl)

cut_facts : All IsNameByte (text "/a") × All IsTextByte (text "b")
unfolding text is_space
cut_facts = (
  (((omega arith, omega arith), refl), (((omega arith, omega arith), refl), tt)),
  ((omega arith, omega arith), tt),
)

blank_cuts_path_example :
    (scan_request stale_line (
      c_string
        (decode_with (λ c. c) (c_string (get_request (text "/a b") none (text "HTTP/1.0")))))).path
    ≡ text "/a"
unfolding text
blank_cuts_path_example =
    blank_cuts_path (λ c. c) stale_line b'/' (text "a") (text "b") (text "HTTP/1.0") no_plus-Keeps
      cut_facts.0 cut_facts.1 (omega arith)

start_pool-IsPool : IsPool start_pool
unfolding IsPool IsSized
start_pool-IsPool = ((omega arith, omega arith, omega arith), tt)

abbrev clients : List (Bool × Option ℕ)
clients = (false, some 4) ∷ (true, none) ∷ (false, some 5) ∷ []

accept_all-IsPool_example : IsPool (accept_all clients start_pool)
accept_all-IsPool_example = accept_all-IsPool clients start_pool start_pool-IsPool

abbrev a_connection : Secure.Connection
a_connection = read_connection (some 500) (some 500) stale_line received memory

abbrev idle : Server
idle = record {
  http_server = record { backlog = []; is_ready = false };
  https_server = record { backlog = []; is_ready = false };
  answers = [];
  is_crashed = false;
}

-- Two connections arrive before the loop takes the event.
two_arrive : Server
two_arrive = arrive http a_connection (arrive http a_connection idle)

one_left : Run site idle (on_event site http false two_arrive)
unfolding two_arrive arrive
one_left = more idle (arrive http a_connection idle) _ (arrives http a_connection idle) (
    more (arrive http a_connection idle) two_arrive _
      (arrives http a_connection (arrive http a_connection idle))
      (more two_arrive _ _ (takes http false two_arrive refl refl) (done _)))

idle-IsLive : IsLive (listener http idle)
unfolding IsLive
idle-IsLive h = absurd (false-true h)

Run-IsLater_example :
    IsLater (listener http idle) (listener http (on_event site http false two_arrive))
Run-IsLater_example =
    Run-IsLater site http idle (on_event site http false two_arrive) one_left idle-IsLive
