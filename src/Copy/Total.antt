-- ===== src/Copy/Total.antt =====
-- A pair of copies ends, and nothing is lost.
use zetproxy_turbo.Base.{
  ℕ, ◌+◌, ◌-◌, ◌%◌, ◌^◌, ◌≤◌, ◌<◌, ◌≡◌, refl, sym, ap, ◌∙◌, Bool, true, false, not, some, List, [],
  ◌∷◌, ◌++◌, append-nil, append_assoc, arith, if◌then◌else◌, length, take, drop, length-append,
  take-append-drop, length-drop,
}
use zetproxy_turbo.Text.{Bytes}
use zetproxy_turbo.Copy.{
  Copy, Round, whole, broken, chunk, finish, round, advance, begin, Pair, Side, upward, downward,
  step, run, results, relay, pipe,
}

-- The rounds of one side.
abbrev pub rounds : Side → List (Side × Round) → List Round
rounds s [] = []
rounds upward ((upward, r) ∷ es) = r ∷ rounds upward es
rounds upward ((downward, r) ∷ es) = rounds upward es
rounds downward ((downward, r) ∷ es) = r ∷ rounds downward es
rounds downward ((upward, r) ∷ es) = rounds downward es

abbrev pub AreWhole : List Round → Type 0
AreWhole [] = Unit
AreWhole (whole k ∷ rs) = AreWhole rs
AreWhole (broken k j ∷ rs) = ⊥

abbrev pub advance_all : ℕ → List Round → Copy → Copy
advance_all size [] c = c
advance_all size (r ∷ rs) c = advance_all size rs (advance size r c)

pub run_sides :
    (size : ℕ) (es : List (Side × Round)) (p : Pair)
    → ((run size es p).up ≡ advance_all size (rounds upward es) p.up)
      × ((run size es p).down ≡ advance_all size (rounds downward es) p.down)
unfolding run step
run_sides size [] p = (refl, refl)
run_sides size ((upward, r) ∷ es) p = run_sides size es (record p { up = advance size r p.up })
run_sides size ((downward, r) ∷ es) p =
    run_sides size es (record p { down = advance size r p.down })

-- What holds of a copy of `bytes` with no failing write.
record Copying (bytes : Bytes) (c : Copy) : Type 0 where
  pub split : c.sent ++ c.rest ≡ bytes
  pub counted : c.count ≡ length c.sent % 2 ^ 64
  pub ended : c.running ≡ false → c.rest ≡ []

begin-Copying : (bytes : Bytes) → Copying bytes (begin bytes)
begin-Copying bytes = record {
  split = refl;
  counted = omega arith;
  ended = λ h. absurd (ground arith);
}

finish-Copying :
    (bytes : Bytes) (c : Copy) → Copying bytes c → c.rest ≡ [] → Copying bytes (finish c)
unfolding finish
finish-Copying bytes c v e = record { split = v.split; counted = v.counted; ended = λ h. e }

round-Copying :
    (bytes : Bytes) (size k : ℕ) (c : Copy)
    → Copying bytes c
    → c.running ≡ true
    → Copying bytes (round size (whole k) c)
unfolding round
round-Copying bytes size k c v on =
    let n = chunk size k in
    record {
      split =
          append_assoc c.sent (take n c.rest) (drop n c.rest)
          ∙ ap (◌++◌ c.sent) (take-append-drop n c.rest)
          ∙ v.split;
      counted = omega (arith, v.counted, length-append c.sent (take n c.rest));
      ended = λ h. absurd (ground arith);
    }

advance-Copying :
    (bytes : Bytes) (size k : ℕ) (c : Copy)
    → Copying bytes c
    → Copying bytes (advance size (whole k) c)
unfolding advance
advance-Copying bytes size k c v = split_case c.running c.rest refl refl
  where
    split_case :
        (b : Bool) (l : Bytes)
        → c.running ≡ b
        → c.rest ≡ l
        → Copying bytes (if b then elim l [ [] ↦ finish c | _ ∷ _ ↦ round size (whole k) c ] else c)
    split_case false l on e = v
    split_case true [] on e = finish-Copying bytes c v e
    split_case true (x ∷ l) on e = round-Copying bytes size k c v on

advance_all-Copying :
    (bytes : Bytes) (size : ℕ) (rs : List Round) (c : Copy)
    → AreWhole rs
    → Copying bytes c
    → Copying bytes (advance_all size rs c)
advance_all-Copying bytes size [] c h v = v
advance_all-Copying bytes size (whole k ∷ rs) c h v =
    advance_all-Copying bytes size rs (advance size (whole k) c) h
      (advance-Copying bytes size k c v)
advance_all-Copying bytes size (broken k j ∷ rs) c h v = absurd h

-- What is left to do: the bytes, and the end of the stream.
abbrev left : Copy → ℕ
left c = if c.running then length c.rest + 1 else 0

advance-left : (size : ℕ) (r : Round) (c : Copy) → left (advance size r c) ≤ left c - 1
unfolding advance finish round
advance-left size (whole k) c = ground (arith, length-drop (chunk size k) c.rest)
advance-left size (broken k j) c = ground arith

advance_all-left :
    (size : ℕ) (rs : List Round) (c : Copy) → left (advance_all size rs c) ≤ left c - length rs
advance_all-left size [] c = omega arith
advance_all-left size (r ∷ rs) c =
    omega (arith, advance-left size r c, advance_all-left size rs (advance size r c))

-- A side that has ended has closed its destination.
abbrev IsClosing : Copy → Type 0
IsClosing c = c.write_closed ≡ not c.running

advance-IsClosing : (size : ℕ) (r : Round) (c : Copy) → IsClosing c → IsClosing (advance size r c)
unfolding advance finish round
advance-IsClosing size (whole k) c h = ground arith
advance-IsClosing size (broken k j) c h = ground arith

advance_all-IsClosing :
    (size : ℕ) (rs : List Round) (c : Copy) → IsClosing c → IsClosing (advance_all size rs c)
advance_all-IsClosing size [] c h = h
advance_all-IsClosing size (r ∷ rs) c h =
    advance_all-IsClosing size rs (advance size r c) (advance-IsClosing size r c h)

-- A side that runs more often than it has bytes ends, whatever the reads return and the writes do.
ends_lem :
    (size : ℕ) (rs : List Round) (bytes : Bytes)
    → length bytes < length rs
    → let c = advance_all size rs (begin bytes) in (c.running ≡ false) × (c.write_closed ≡ true)
ends_lem size rs bytes h =
    let c = advance_all size rs (begin bytes) in
    let off : c.running ≡ false = ground (arith, advance_all-left size rs (begin bytes)) in
    (off, advance_all-IsClosing size rs (begin bytes) refl ∙ ap not off)

-- A copy whose writes all succeed delivers every byte, in order.
pub copied :
    (size : ℕ) (rs : List Round) (bytes : Bytes)
    → length bytes < length rs
    → AreWhole rs
    → let c = advance_all size rs (begin bytes) in
      (c.sent ≡ bytes) × (c.count ≡ length bytes % 2 ^ 64)
copied size rs bytes h w =
    let c = advance_all size rs (begin bytes) in
    let v = advance_all-Copying bytes size rs (begin bytes) w (begin-Copying bytes) in
    let (off, _) = ends_lem size rs bytes h in
    let all : c.sent ≡ bytes =
      sym (append-nil c.sent) ∙ ap (◌++◌ c.sent) (sym (v.ended off)) ∙ v.split in
    (all, v.counted ∙ ap (λ l. length l % 2 ^ 64) all)

pair_ends :
    (size : ℕ) (es : List (Side × Round)) (a b : Bytes)
    → length a < length (rounds upward es)
    → length b < length (rounds downward es)
    → let p = run size es (record { up = begin a; down = begin b }) in
      (results p ≡ some (p.up.count, p.down.count))
      × (p.up.write_closed ≡ true)
      × (p.down.write_closed ≡ true)
unfolding results
pair_ends size es a b h k =
    let (u, d) = run_sides size es (record { up = begin a; down = begin b }) in
    let (off, closed) = ends_lem size (rounds upward es) a h in
    let (off', closed') = ends_lem size (rounds downward es) b k in
    rw (u, d) (ground arith, closed, closed')

pair_delivers :
    (size : ℕ) (es : List (Side × Round)) (a b : Bytes)
    → length a < length (rounds upward es)
    → length b < length (rounds downward es)
    → AreWhole (rounds upward es)
    → AreWhole (rounds downward es)
    → let p = run size es (record { up = begin a; down = begin b }) in
      (p.up.sent ≡ a)
      × (p.down.sent ≡ b)
      × (results p ≡ some (length a % 2 ^ 64, length b % 2 ^ 64))
pair_delivers size es a b h k x y =
    let (u, d) = run_sides size es (record { up = begin a; down = begin b }) in
    let (s, n) = copied size (rounds upward es) a h x in
    let (s', n') = copied size (rounds downward es) b k y in
    let (e, _, _) = pair_ends size es a b h k in rw (e) (rw (u, d) (s, s', ap some (ground arith)))

-- The two copies of `Relay` and those of `pipe` end, under any schedule that runs each side more often
-- than its source has bytes, whatever the reads return, however much a round copies at most, and also when writes fail; then `Relay` returns
-- and the four connections are closed for writing.
pub relay_ends :
    (size : ℕ) (es : List (Side × Round)) (buffered a b : Bytes)
    → length (buffered ++ a) < length (rounds upward es)
    → length b < length (rounds downward es)
    → let p = relay size es (buffered ++ a) b in
      let q = pipe size es buffered a b in
      (results p ≡ some (p.up.count, p.down.count))
      × (results q ≡ some (q.up.count, q.down.count))
      × (p.up.write_closed ≡ true)
      × (p.down.write_closed ≡ true)
      × (q.up.write_closed ≡ true)
      × (q.down.write_closed ≡ true)
unfolding relay pipe
relay_ends size es buffered a b h k =
    let (e, c, c') = pair_ends size es (buffered ++ a) b h k in (e, e, c, c', c, c')

-- If no write fails, then under any such schedule each peer of `Relay` gets exactly what the other one
-- sent, in order, and the results are the numbers of bytes, modulo 2 ^ 64; and `pipe` delivers the
-- bytes that were read before the pipe began and behind them all that is read later.
pub relay_delivers :
    (size : ℕ) (es : List (Side × Round)) (buffered a b : Bytes)
    → length (buffered ++ a) < length (rounds upward es)
    → length b < length (rounds downward es)
    → AreWhole (rounds upward es)
    → AreWhole (rounds downward es)
    → let p = relay size es (buffered ++ a) b in
      let q = pipe size es buffered a b in
      (p.up.sent ≡ buffered ++ a)
      × (p.down.sent ≡ b)
      × (results p ≡ some (length (buffered ++ a) % 2 ^ 64, length b % 2 ^ 64))
      × (q.up.sent ≡ buffered ++ a)
      × (q.down.sent ≡ b)
unfolding relay pipe
relay_delivers size es buffered a b h k x y =
    let (s, s', r) = pair_delivers size es (buffered ++ a) b h k x y in (s, s', r, s, s')
