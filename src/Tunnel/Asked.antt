-- ===== src/Tunnel/Asked.antt =====
-- What a CONNECT line and an HTTP request ask for, written without the functions of
-- internal/tunnel/tunnel.go: the second word of the line with a port, and the value of the first host
-- header.
use zetproxy_turbo.Base.{
  ℕ, ◌+◌, ◌≤◌, ◌<◌, ◌≡◌, refl, sym, ap, inl, inr, Bool, true, false, ◌&&◌, ◌||◌, Option, none, some,
  List, [], ◌∷◌, ◌++◌, arith, ◌==◌, if◌then◌else◌, Bool-cases, Option-cases, drop,
}
use zetproxy_turbo.Text.{Bytes, equal, contains_byte, cut_byte}
use zetproxy_turbo.Tunnel.{with_port}
use zetproxy_turbo.Tunnel.Http.{
  extract_connect_host, extract_http_host, find_host, split_lines, is_host_line, lower,
}

-- The text up to the first `c`, if there is one, and the text behind it.
abbrev pub up_to : ℕ → Bytes → Option Bytes
up_to c [] = none
up_to c (x ∷ s) =
    let rest = up_to c s in
    if x == c then some [] else elim rest [ none ↦ none | some t ↦ some (x ∷ t) ]

abbrev pub behind : ℕ → Bytes → Bytes
behind c [] = []
behind c (x ∷ s) = let rest = behind c s in if x == c then s else rest

-- The second of the words of a request line, or nothing if it does not end.
unfoldable pub second_word : Bytes → Bytes
second_word s = elim (up_to b' ' (behind b' ' s)) [ none ↦ [] | some host ↦ host ]

-- A host, with this port behind a colon if it names none.
unfoldable pub port_added : Bytes → Bytes → Bytes
port_added port host = elim (up_to b':' host) [ none ↦ host ++ b':' ∷ port | some _ ↦ host ]

-- The rest of the line.
abbrev pub line_at : Bytes → Bytes
line_at [] = []
line_at (c ∷ []) = c ∷ []
line_at (c ∷ d ∷ s) = let rest = line_at (d ∷ s) in if c == 13 && d == 10 then [] else c ∷ rest

-- This small letter or its capital.
abbrev pub is_letter : ℕ → ℕ → Bool
is_letter small x = x == small || x + 32 == small

-- "host: " with something behind it.
abbrev pub is_host_header : Bytes → Bool
is_host_header (h ∷ o ∷ s ∷ t ∷ colon ∷ space ∷ x ∷ rest) =
    is_letter b'h' h
    && is_letter b'o' o
    && is_letter b's' s
    && is_letter b't' t
    && colon == b':'
    && space == b' '
is_host_header _ = false

-- The value of the first host header; the first argument says whether a line begins here.
abbrev pub header_value : Bool → Bytes → Bytes
header_value first [] = []
header_value first (c ∷ []) = []
header_value first (c ∷ d ∷ s) =
    let line = line_at (c ∷ d ∷ s) in
    let here = header_value false (d ∷ s) in
    let next = header_value true s in
    if first && is_host_header line then drop 6 line else if c == 13 && d == 10 then next else here

abbrev before_of : Option (Bytes × Bytes) → Option Bytes
before_of none = none
before_of (some (a, b)) = some a

abbrev after_of : Option (Bytes × Bytes) → Bytes
after_of none = []
after_of (some (a, b)) = b

up_to_lem : (c : ℕ) (s : Bytes) → before_of (cut_byte s c) ≡ up_to c s
unfolding cut_byte
up_to_lem c [] = refl
up_to_lem c (x ∷ s) =
    let ih = up_to_lem c s in
    elim (Bool-cases (x == c)) [
      | inl e ↦ rw e refl
      | inr e ↦
          rw (e, sym ih)
            (elim (Option-cases (cut_byte s c)) [ inl n ↦ rw n refl | inr (t, n) ↦ rw n refl ])
    ]

behind_lem : (c : ℕ) (s : Bytes) → after_of (cut_byte s c) ≡ behind c s
unfolding cut_byte
behind_lem c [] = refl
behind_lem c (x ∷ s) =
    let ih = behind_lem c s in
    elim (Bool-cases (x == c)) [
      | inl e ↦ rw e refl
      | inr e ↦
          rw (e, sym ih)
            (elim (Option-cases (cut_byte s c)) [ inl n ↦ rw n refl | inr (t, n) ↦ rw n refl ])
    ]

contains_lem :
    (c : ℕ) (s : Bytes) → contains_byte s c ≡ elim (up_to c s) [ none ↦ false | some _ ↦ true ]
unfolding contains_byte
contains_lem c [] = refl
contains_lem c (x ∷ s) =
    let ih = contains_lem c s in
    elim (Bool-cases (x == c)) [
      | inl e ↦ rw e refl
      | inr e ↦
          rw (e, ih)
            (elim (Option-cases (up_to c s)) [ inl n ↦ rw n refl | inr (t, n) ↦ rw n refl ])
    ]

pub with_port_lem : (port host : Bytes) → with_port (b':' ∷ port) host ≡ port_added port host
unfolding with_port port_added
with_port_lem port host =
    rw (contains_lem b':' host, port_added)
      (elim (Option-cases (up_to b':' host)) [
        | inl n ↦ rw (n, port_added) refl
        | inr (t, n) ↦ rw (n, port_added) refl
      ])

pub extract_connect_host-second_word : (s : Bytes) → extract_connect_host s ≡ second_word s
unfolding extract_connect_host second_word
extract_connect_host-second_word s =
    rw (extract_connect_host, second_word, sym (behind_lem b' ' s))
      (elim (Option-cases (cut_byte s b' ')) [
        | inl n ↦ rw (n, extract_connect_host) refl
        | inr ((a, rest), n) ↦
            rw (n, extract_connect_host, sym (up_to_lem b' ' rest))
              (elim (Option-cases (cut_byte rest b' ')) [
                | inl m ↦ rw m refl
                | inr (t, m) ↦ rw m refl
              ])
      ])

letter_lem : (l x : ℕ) → 97 ≤ l → l ≤ 122 → (lower x == l) ≡ is_letter l x
unfolding lower
letter_lem l x a b = ground arith

sign_lem : (l x : ℕ) → l < 65 → (lower x == l) ≡ (x == l)
unfolding lower
sign_lem l x a = ground arith

is_host_line-is_host_header : (l : Bytes) → is_host_line l ≡ is_host_header l
unfolding is_host_line equal
is_host_line-is_host_header [] = refl
is_host_line-is_host_header (h ∷ []) = refl
is_host_line-is_host_header (h ∷ o ∷ []) = refl
is_host_line-is_host_header (h ∷ o ∷ s ∷ []) = refl
is_host_line-is_host_header (h ∷ o ∷ s ∷ t ∷ []) = refl
is_host_line-is_host_header (h ∷ o ∷ s ∷ t ∷ c ∷ []) = refl
is_host_line-is_host_header (h ∷ o ∷ s ∷ t ∷ c ∷ b ∷ []) = refl
is_host_line-is_host_header (h ∷ o ∷ s ∷ t ∷ c ∷ b ∷ x ∷ r) =
    let p = letter_lem b'h' h (omega arith) (omega arith) in
    let q = letter_lem b'o' o (omega arith) (omega arith) in
    let p' = letter_lem b's' s (omega arith) (omega arith) in
    let q' = letter_lem b't' t (omega arith) (omega arith) in
    let u = sign_lem b':' c (omega arith) in let v = sign_lem b' ' b (omega arith) in ground arith

abbrev head_line : List Bytes → Bytes
head_line [] = []
head_line (l ∷ ls) = l

abbrev tail_lines : List Bytes → List Bytes
tail_lines [] = []
tail_lines (l ∷ ls) = ls

-- The first line of the split, and that there is one.
line_at_lem : (s : Bytes) → split_lines s ≡ line_at s ∷ tail_lines (split_lines s)
unfolding split_lines
line_at_lem [] = refl
line_at_lem (c ∷ []) = refl
line_at_lem (c ∷ d ∷ s) =
    let ih = line_at_lem (d ∷ s) in
    elim (Bool-cases (c == 13 && d == 10)) [ inl e ↦ rw e refl | inr e ↦ rw (e, ih) refl ]

header_value_lem :
    (s : Bytes)
    → (find_host (split_lines s) ≡ header_value true s)
      × (find_host (tail_lines (split_lines s)) ≡ header_value false s)
unfolding split_lines find_host is_host_line
header_value_lem [] = (refl, refl)
header_value_lem (c ∷ []) = (refl, refl)
header_value_lem (c ∷ d ∷ s) = elim (Bool-cases (c == 13 && d == 10)) [
  | inl e ↦ let ih = (header_value_lem s).0 in rw e (ih, ih)
  | inr e ↦
      let ih = (header_value_lem (d ∷ s)).1 in
      let line = c ∷ line_at (d ∷ s) in
      rw (e, line_at_lem (d ∷ s))
        (rw (is_host_line-is_host_header line)
          (ap (λ h. if is_host_header line then drop 6 line else h) ih, ih))
]

pub extract_http_host-header_value : (s : Bytes) → extract_http_host s ≡ header_value true s
unfolding extract_http_host
extract_http_host-header_value s = (header_value_lem s).0
