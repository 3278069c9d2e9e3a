-- ===== src/Tunnel/Http.antt =====
-- The two functions of internal/tunnel/tunnel.go that find the host in an HTTP request.
use zetproxy_turbo.Base.{
  ℕ, ◌+◌, ◌≡◌, refl, ap, ◌∙◌, ◌≢◌, inl, inr, Bool, true, false, ◌&&◌, none, some, List, [], ◌∷◌,
  ◌++◌, map, arith, ltb, leb, ◌==◌, if◌then◌else◌, ==_iff, Bool-cases, length, take, drop,
  length-append, take-append, drop-append,
}
use zetproxy_turbo.Text.{Bytes, codes, equal, contains_byte, cut_byte}
use zetproxy_turbo.Text.Laws.{equal_self, cut_byte-append}

-- `extractCONNECTHost`: the text between the first two spaces.
unfoldable pub extract_connect_host : Bytes → Bytes
extract_connect_host s = elim (cut_byte s b' ') [
  | none ↦ []
  | some (_, rest) ↦ elim (cut_byte rest b' ') [ none ↦ [] | some (host, _) ↦ host ]
]

abbrev pub push_first : ℕ → List Bytes → List Bytes
push_first c [] = (c ∷ []) ∷ []
push_first c (l ∷ ls) = (c ∷ l) ∷ ls

-- `strings.Split(s, "\r\n")`
unfoldable pub split_lines : Bytes → List Bytes
split_lines [] = [] ∷ []
split_lines (c ∷ []) = (c ∷ []) ∷ []
split_lines (c ∷ d ∷ s) =
    let cut = split_lines s in
    let longer = split_lines (d ∷ s) in if c == 13 && d == 10 then [] ∷ cut else push_first c longer

-- `strings.EqualFold` against a text in lower case; no letter of "host: " folds from outside ASCII
-- in as many bytes.
unfoldable pub lower : ℕ → ℕ
lower c = if leb b'A' c && leb c b'Z' then c + 32 else c

-- `len(line) > 6 && strings.EqualFold(line[:6], "host: ")`
unfoldable pub is_host_line : Bytes → Bool
is_host_line line = ltb 6 (length line) && equal (map lower (take 6 line)) (codes "host: ")

-- The loop of `extractHTTPHost`; both of its inner returns give the same host.
unfoldable pub find_host : List Bytes → Bytes
find_host [] = []
find_host (line ∷ lines) = if is_host_line line then drop 6 line else find_host lines

unfoldable pub extract_http_host : Bytes → Bytes
extract_http_host s = find_host (split_lines s)

-- No line break inside.
abbrev pub IsLine : Bytes → Type 0
IsLine [] = Unit
IsLine (c ∷ s) = (c ≢ 13) × IsLine s

split_lines_cut : (s : Bytes) → split_lines (13 ∷ 10 ∷ s) ≡ [] ∷ split_lines s
unfolding split_lines
split_lines_cut s = refl

split_lines_push :
    (c d : ℕ) (s : Bytes) → c ≢ 13 → split_lines (c ∷ d ∷ s) ≡ push_first c (split_lines (d ∷ s))
unfolding split_lines
split_lines_push c d s h = elim (Bool-cases (c == 13)) [
  | inl e ↦ absurd (h ((==_iff c 13).0 e))
  | inr e ↦ rw (e, split_lines)
]

split_lines-line :
    (l rest : Bytes) → IsLine l → split_lines (l ++ 13 ∷ 10 ∷ rest) ≡ l ∷ split_lines rest
split_lines-line [] rest h = split_lines_cut rest
split_lines-line (c ∷ []) rest h =
    split_lines_push c 13 (10 ∷ rest) h.0 ∙ ap (push_first c) (split_lines_cut rest)
split_lines-line (c ∷ d ∷ l) rest h =
    split_lines_push c d (l ++ 13 ∷ 10 ∷ rest) h.0
    ∙ ap (push_first c) (split_lines-line (d ∷ l) rest h.1)

-- The lines, each with its end.
abbrev pub with_ends : List Bytes → Bytes → Bytes
with_ends [] rest = rest
with_ends (l ∷ ls) rest = l ++ 13 ∷ 10 ∷ with_ends ls rest

abbrev pub AreOther : List Bytes → Type 0
AreOther [] = Unit
AreOther (l ∷ ls) = IsLine l × (is_host_line l ≡ false) × AreOther ls

is_host_line_lem :
    (name host : Bytes)
    → length name ≡ 6
    → map lower name ≡ codes "host: "
    → host ≢ []
    → (is_host_line (name ++ host) ≡ true) × (drop 6 (name ++ host) ≡ host)
unfolding is_host_line
is_host_line_lem name [] n c h = absurd (h refl)
is_host_line_lem name (x ∷ host) n c h =
    let front : take 6 (name ++ x ∷ host) ≡ name = rw n at (take-append name (x ∷ host)) in
    let behind : drop 6 (name ++ x ∷ host) ≡ x ∷ host = rw n at (drop-append name (x ∷ host)) in
    let long : ltb 6 (length (name ++ x ∷ host)) ≡ true =
      ground (arith, length-append name (x ∷ host)) in
    (rw (front, long, c) (equal_self (codes "host: ")), behind)

-- The first host header of a request is found, in any mixture of cases, and its value is returned
-- up to the end of its line: after a request line and headers `ls` that are no host headers.
pub extract_http_host_lem :
    (ls : List Bytes) (name host rest : Bytes)
    → AreOther ls
    → length name ≡ 6
    → map lower name ≡ codes "host: "
    → IsLine (name ++ host)
    → host ≢ []
    → extract_http_host (with_ends ls ((name ++ host) ++ 13 ∷ 10 ∷ rest)) ≡ host
unfolding extract_http_host find_host
extract_http_host_lem [] name host rest o n c l h =
    let header = is_host_line_lem name host n c h in
    rw (split_lines-line (name ++ host) rest l) (rw (header.0, find_host) header.1)
extract_http_host_lem (x ∷ ls) name host rest o n c l h =
    rw (split_lines-line x (with_ends ls ((name ++ host) ++ 13 ∷ 10 ∷ rest)) o.0)
      (rw (o.1, find_host) (extract_http_host_lem ls name host rest o.2 n c l h))

-- A CONNECT request line gives the host and port that it names.
pub extract_connect_host_lem :
    (method host rest : Bytes)
    → contains_byte method b' ' ≡ false
    → contains_byte host b' ' ≡ false
    → extract_connect_host (method ++ b' ' ∷ (host ++ b' ' ∷ rest)) ≡ host
unfolding extract_connect_host
extract_connect_host_lem method host rest m h =
    rw (cut_byte-append method (host ++ b' ' ∷ rest) b' ' m, extract_connect_host)
      (rw (cut_byte-append host rest b' ' h))
