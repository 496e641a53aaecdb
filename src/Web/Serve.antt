-- ===== src/Web/Serve.antt =====
-- homework1/demo/utils_https.c: the answer to a GET request is the one homework1/README.md asks for.
use inp.Common.{
  ℕ, ◌≤◌, ◌≡◌, ◌≢◌, refl, sym, ap, ◌∙◌, inl, inr, true, [], ◌∷◌, ◌++◌, some, if◌then◌else◌,
  Bool-cases, false-true, length, not, drop, arith,
}
use inp.Common.Bytes.{Bytes, text, bytes_eq, bytes_eq_iff}
use inp.Web.{
  mime_type, Tree, Node, missing, directory, locked, file, RequestLine, ends_with_slash,
  opened_path, index_path_of, extract_file_path, exists, is_directory,
}
use inp.Web.Secure
use inp.Web.Request.{full_path_of_lem, index_path_of_lem}
use inp.Web.Site.{
  Answer, serve, serve_node, serve_file, response_with, IsPosix, HasNoInnerIndex,
  ends_with_slash-append,
}
use mathlib.Core.List.{append_assoc}

-- `index_path` and the path with one slash name the same.
pub index_path_of-same :
    (tree : Tree) (p : Bytes)
    → IsPosix tree
    → length p ≤ 255
    → ends_with_slash p ≡ true
    → tree (index_path_of (text "html" ++ p)) ≡ tree ((text "html" ++ p) ++ text "index.html")
unfolding IsPosix text
index_path_of-same tree p posix fits slash =
    let split = ends_with_slash-append p slash in
    let d = split.0 in
    rw (index_path_of_lem p fits, split.1)
      (ap tree (append_assoc (text "html" ++ d) (text "/") (text "/index.html"))
        ∙ (posix.0 (text "html" ++ d)
            ∙ ap tree (sym (append_assoc (text "html" ++ d) (text "/") (text "index.html")))))

opened_root : opened_path (text "html" ++ text "/") ≡ (text "html" ++ text "/") ++ text "index.html"
unfolding opened_path text bytes_eq
opened_root = refl

pub opened_other : (p : Bytes) → p ≢ text "/" → opened_path (text "html" ++ p) ≡ text "html" ++ p
unfolding opened_path text
opened_other p n = elim (Bool-cases (bytes_eq (text "html" ++ p) (text "html/"))) [
  | inl e ↦
      let whole = (bytes_eq_iff (text "html" ++ p) (text "html/")).0 e in
      absurd (n (ap (drop 4) whole))
  | inr e ↦ rw e refl
]

-- What the code does when `full_path` is a file, or a directory with a slash and an index.
get_200_response_lem :
    (tree : Tree) (full_path name : Bytes) (node : Node) (absent : Answer)
    → opened_path full_path ≡ name
    → tree name ≡ node
    → node ≢ missing
    → Secure.get_200_response tree full_path ≡ response_with mime_type (serve_file absent name node)
unfolding Secure.get_200_response response_with
get_200_response_lem tree full_path name missing absent e t h = absurd (h refl)
get_200_response_lem tree full_path name directory absent e t h = rw (e, t) refl
get_200_response_lem tree full_path name locked absent e t h = rw (e, t) refl
get_200_response_lem tree full_path name (file bytes) absent e t h = rw (e, t) refl

pages :
    (p : Bytes)
    → (some Secure.get_404_response ≡ response_with mime_type Answer.not_found)
      × (some Secure.get_403_response ≡ response_with mime_type Answer.forbidden)
      × (some (Secure.get_301_response p) ≡ response_with mime_type (Answer.moved (p ++ b'/' ∷ [])))
unfolding Secure.get_404_response Secure.get_403_response Secure.get_301_response response_with text
pages p = (refl, refl, refl)

index_opened :
    (p : Bytes) (node : Node)
    → (p ≢ text "/" → node ≡ missing)
    → node ≢ missing
    → opened_path (text "html" ++ p) ≡ (text "html" ++ p) ++ text "index.html"
index_opened p node inner there = elim (Bool-cases (bytes_eq p (text "/"))) [
  | inl e ↦ rw ((bytes_eq_iff p (text "/")).0 e) opened_root
  | inr e ↦ absurd (there (inner (λ h. false-true (sym e ∙ (bytes_eq_iff p (text "/")).1 h))))
]

content_lem :
    (client : Secure.ClientInfo) (tree : Tree) (p : Bytes) (index : Node)
    → (p ≢ text "/" → index ≡ missing)
    → tree ((text "html" ++ p) ++ text "index.html") ≡ index
    → index ≢ missing
    → Secure.send_200_response client (Secure.get_200_response tree (text "html" ++ p))
      ≡ Secure.send_200_response client (
          response_with mime_type
            (serve_file Answer.forbidden ((text "html" ++ p) ++ text "index.html") index))
content_lem client tree p index inner e there =
    let opened = index_opened p index inner there in
    ap (Secure.send_200_response client)
      (get_200_response_lem tree (text "html" ++ p) _ index Answer.forbidden opened e there)

-- `handleHTTPRequest` on a directory whose name ends in a slash.
directory_lem :
    (client : Secure.ClientInfo) (tree : Tree) (p : Bytes) (index : Node)
    → IsPosix tree
    → length p ≤ 255
    → ends_with_slash p ≡ true
    → (p ≢ text "/" → index ≡ missing)
    → tree ((text "html" ++ p) ++ text "index.html") ≡ index
    → (if not (exists (tree (index_path_of (text "html" ++ p))))
        then some (Secure.send_http_response client Secure.get_403_response)
        else Secure.send_200_response client (Secure.get_200_response tree (text "html" ++ p)))
      ≡ Secure.send_200_response client (
          response_with mime_type
            (serve_file Answer.forbidden ((text "html" ++ p) ++ text "index.html") index))
directory_lem client tree p missing posix fits slash inner e =
    rw (index_path_of-same tree p posix fits slash, e)
      (ap (Secure.send_200_response client) (pages p).1)
directory_lem client tree p directory posix fits slash inner e =
    rw (index_path_of-same tree p posix fits slash, e)
      (content_lem client tree p directory inner e (λ h. ground arith))
directory_lem client tree p locked posix fits slash inner e =
    rw (index_path_of-same tree p posix fits slash, e)
      (content_lem client tree p locked inner e (λ h. ground arith))
directory_lem client tree p (file bytes) posix fits slash inner e =
    rw (index_path_of-same tree p posix fits slash, e)
      (content_lem client tree p (file bytes) inner e (λ h. ground arith))

plain_file_lem :
    (client : Secure.ClientInfo) (tree : Tree) (p : Bytes) (node : Node) (absent : Answer)
    → IsPosix tree
    → tree (text "html" ++ p) ≡ node
    → node ≢ missing
    → node ≢ directory
    → Secure.send_200_response client (Secure.get_200_response tree (text "html" ++ p))
      ≡ Secure.send_200_response client
          (response_with mime_type (serve_file absent (text "html" ++ p) node))
unfolding IsPosix
plain_file_lem client tree p node absent posix e there plain =
    let no_root : p ≢ text "/" = λ h. elim (posix.1 (text "html")) [
      | inl m ↦ there (sym e ∙ (ap (λ q. tree (text "html" ++ q)) h ∙ m))
      | inr d ↦ plain (sym e ∙ (ap (λ q. tree (text "html" ++ q)) h ∙ d))
    ] in
    ap (Secure.send_200_response client)
      (get_200_response_lem tree _ _ node absent (opened_other p no_root) e there)

-- The decisions of `handleHTTPRequest` on what stands at `full_path`.
node_lem :
    (client : Secure.ClientInfo) (tree : Tree) (p : Bytes) (node : Node)
    → IsPosix tree
    → HasNoInnerIndex tree p
    → length p ≤ 255
    → tree (text "html" ++ p) ≡ node
    → (if not (exists node)
        then some (Secure.send_http_response client Secure.get_404_response)
        else if is_directory node
        then (if not (ends_with_slash p)
            then some (Secure.send_http_response client (Secure.get_301_response p))
            else if not (exists (tree (index_path_of (text "html" ++ p))))
            then some (Secure.send_http_response client Secure.get_403_response)
            else Secure.send_200_response client (Secure.get_200_response tree (text "html" ++ p)))
        else Secure.send_200_response client (Secure.get_200_response tree (text "html" ++ p)))
      ≡ Secure.send_200_response client (response_with mime_type (serve_node tree p node))
unfolding HasNoInnerIndex
node_lem client tree p missing posix inner fits e = ap (Secure.send_200_response client) (pages p).0
node_lem client tree p locked posix inner fits e =
    plain_file_lem client tree p locked Answer.not_found posix e (λ h. ground arith)
      (λ h. ground arith)
node_lem client tree p (file bytes) posix inner fits e =
    plain_file_lem client tree p (file bytes) Answer.not_found posix e (λ h. ground arith)
      (λ h. ground arith)
node_lem client tree p directory posix inner fits e = elim (Bool-cases (ends_with_slash p)) [
  | inl slash ↦ rw slash (
      directory_lem client tree p (tree ((text "html" ++ p) ++ text "index.html")) posix fits slash
        (λ n. inner n e slash) refl)
  | inr slash ↦ rw slash (ap (Secure.send_200_response client) (pages p).2)
]

pub ends_with_slash-full_path :
    (c : ℕ) (p : Bytes) → ends_with_slash (text "html" ++ (c ∷ p)) ≡ ends_with_slash (c ∷ p)
unfolding ends_with_slash text
ends_with_slash-full_path c p = refl

pub answer_request_lem :
    (client : Secure.ClientInfo) (tree : Tree) (line : RequestLine) (c : ℕ) (p : Bytes)
    → IsPosix tree
    → HasNoInnerIndex tree (c ∷ p)
    → length (c ∷ p) ≤ 255
    → line.method ≡ text "GET"
    → extract_file_path line.path ≡ c ∷ p
    → Secure.answer_request client tree line
      ≡ Secure.send_200_response client (response_with mime_type (serve tree (c ∷ p)))
unfolding Secure.answer_request serve
answer_request_lem client tree line c p posix inner fits get at =
    let is_get : bytes_eq line.method (text "GET") ≡ true =
      (bytes_eq_iff line.method (text "GET")).1 get in
    rw (is_get, at, full_path_of_lem (c ∷ p) fits, ends_with_slash-full_path c p)
      (node_lem client tree (c ∷ p) (tree (text "html" ++ (c ∷ p))) posix inner fits refl)
