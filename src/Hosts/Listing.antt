-- ===== src/Hosts/Listing.antt =====
-- What `getAllIPs` lists.
use zetproxy_turbo.Base.{
  ◌≡◌, refl, sym, ap, ◌∙◌, inl, inr, Bool, true, false, not, ◌&&◌, ◌||◌, none, some, List, [], ◌∷◌,
  ◌++◌, append-nil, append_assoc, arith, if◌then◌else◌, Bool-cases, Option-cases,
}
use zetproxy_turbo.Text.{Bytes, equal}
use zetproxy_turbo.Text.Laws.{equal_iff}
use zetproxy_turbo.Dict.{lookup, insert}
use zetproxy_turbo.Dict.Laws.{equal_sym, lookup-insert}
use zetproxy_turbo.Addr.{to4, ip_string}
use zetproxy_turbo.Hosts.{
  InterfaceAddr, ip_net, other_addr, Interface, Found, is_seen, add_addr, add_addrs, add_interface,
  add_interfaces, nothing_found, all_ips,
}

-- The text of an IPv4 address; nothing for any other.
abbrev pub addr_text : InterfaceAddr → List Bytes
addr_text other_addr = []
addr_text (ip_net ip) = elim (to4 ip) [ none ↦ [] | some ip4 ↦ ip_string ip4 ∷ [] ]

abbrev pub addr_texts : List InterfaceAddr → List Bytes
addr_texts [] = []
addr_texts (a ∷ addrs) = addr_text a ++ addr_texts addrs

-- The texts of an interface that is up, is no loopback and lists its addresses.
abbrev pub interface_texts : Interface → List Bytes
interface_texts i =
    if i.up && not i.loopback
    then elim i.addrs [ none ↦ [] | some addrs ↦ addr_texts addrs ]
    else []

abbrev pub texts : List Interface → List Bytes
texts [] = []
texts (i ∷ ifaces) = interface_texts i ++ texts ifaces

abbrev pub remove : Bytes → List Bytes → List Bytes
remove x [] = []
remove x (y ∷ ys) = let rest = remove x ys in if equal x y then rest else y ∷ rest

-- Every text once, where it stands first.
abbrev pub firsts : List Bytes → List Bytes
firsts [] = []
firsts (x ∷ xs) = x ∷ remove x (firsts xs)

abbrev pub mentions : Bytes → List Bytes → Bool
mentions x [] = false
mentions x (y ∷ ys) = equal y x || mentions x ys

without : List Bytes → List Bytes → List Bytes
without seen [] = []
without seen (y ∷ ys) = let rest = without seen ys in if mentions y seen then rest else y ∷ rest

mentions-snoc :
    (x y : Bytes) (ys : List Bytes) → mentions x (ys ++ y ∷ []) ≡ (mentions x ys || equal y x)
mentions-snoc x y [] = ground arith
mentions-snoc x y (z ∷ ys) = ground (arith, mentions-snoc x y ys)

without-remove_seen :
    (x : Bytes) (seen ys : List Bytes)
    → mentions x seen ≡ true
    → without seen (remove x ys) ≡ without seen ys
unfolding without
without-remove_seen x seen [] h = refl
without-remove_seen x seen (y ∷ ys) h =
    ground (arith, equal_iff x y, without-remove_seen x seen ys h)

without-remove :
    (x : Bytes) (seen ys : List Bytes) → without seen (remove x ys) ≡ without (seen ++ x ∷ []) ys
unfolding without
without-remove x seen [] = refl
without-remove x seen (y ∷ ys) = ground (arith, mentions-snoc y x seen, without-remove x seen ys)

without-nil : (ys : List Bytes) → without [] ys ≡ ys
unfolding without
without-nil [] = refl
without-nil (y ∷ ys) = ap (◌∷◌ y) (without-nil ys)

-- The inner loop's body on a text.
add_text : Bytes → Found → Found
add_text text f =
    if is_seen text f.seen
    then f
    else record { seen = insert text true f.seen; ips = f.ips ++ text ∷ [] }

abbrev add_texts : List Bytes → Found → Found
add_texts [] f = f
add_texts (t ∷ ts) f = add_texts ts (add_text t f)

add_texts-append :
    (a b : List Bytes) (f : Found) → add_texts (a ++ b) f ≡ add_texts b (add_texts a f)
add_texts-append [] b f = refl
add_texts-append (t ∷ a) b f = add_texts-append a b (add_text t f)

-- The map holds the texts that are listed.
abbrev IsTracked : Found → Type 0
IsTracked f = (t : Bytes) → is_seen t f.seen ≡ mentions t f.ips

add_text-IsTracked : (x : Bytes) (f : Found) → IsTracked f → IsTracked (add_text x f)
unfolding add_text
add_text-IsTracked x f h t =
    ground (arith, h t, h x, lookup-insert x t true f.seen, mentions-snoc t x f.ips)

add_text_seen : (x : Bytes) (f : Found) → is_seen x f.seen ≡ true → add_text x f ≡ f
unfolding add_text
add_text_seen x f h = ground arith

add_text_fresh :
    (x : Bytes) (f : Found) → is_seen x f.seen ≡ false → (add_text x f).ips ≡ f.ips ++ x ∷ []
unfolding add_text
add_text_fresh x f h = ground arith

-- The loop adds the texts that are not listed so far.
add_texts_lem :
    (ts : List Bytes) (f : Found)
    → IsTracked f
    → (add_texts ts f).ips ≡ f.ips ++ without f.ips (firsts ts)
unfolding without
add_texts_lem [] f h = sym (append-nil f.ips)
add_texts_lem (t ∷ ts) f h =
    let ih = add_texts_lem ts (add_text t f) (add_text-IsTracked t f h) in
    elim (Bool-cases (is_seen t f.seen)) [
      | inl old ↦
          ih
          ∙ rw (add_text_seen t f old)
              (ground (arith, h t, without-remove_seen t f.ips (firsts ts)))
      | inr fresh ↦
          ih
          ∙ rw (add_text_fresh t f fresh) (
              ground (
                arith,
                h t,
                without-remove t f.ips (firsts ts),
                append_assoc f.ips (t ∷ []) (without f.ips (remove t (firsts ts))),
              ))
    ]

add_addr_lem : (a : InterfaceAddr) (f : Found) → add_addr a f ≡ add_texts (addr_text a) f
unfolding add_addr add_text
add_addr_lem other_addr f = refl
add_addr_lem (ip_net ip) f = ground arith

add_addrs_lem :
    (addrs : List InterfaceAddr) (f : Found) → add_addrs addrs f ≡ add_texts (addr_texts addrs) f
unfolding add_addrs
add_addrs_lem [] f = refl
add_addrs_lem (a ∷ addrs) f =
    rw (add_texts-append (addr_text a) (addr_texts addrs) f, add_addr_lem a f)
      (add_addrs_lem addrs (add_texts (addr_text a) f))

add_interface_lem :
    (i : Interface) (f : Found) → add_interface i f ≡ add_texts (interface_texts i) f
unfolding add_interface
add_interface_lem i f = elim (Option-cases i.addrs) [
  | inl e ↦ ground arith
  | inr (addrs, e) ↦ ground (arith, add_addrs_lem addrs f)
]

add_interfaces_lem :
    (ifaces : List Interface) (f : Found) → add_interfaces ifaces f ≡ add_texts (texts ifaces) f
unfolding add_interfaces
add_interfaces_lem [] f = refl
add_interfaces_lem (i ∷ ifaces) f =
    rw (add_texts-append (interface_texts i) (texts ifaces) f, add_interface_lem i f)
      (add_interfaces_lem ifaces (add_texts (interface_texts i) f))

all_ips-firsts : (ifaces : List Interface) → all_ips (some ifaces) ≡ firsts (texts ifaces)
unfolding all_ips lookup
all_ips-firsts ifaces =
    ap (λ (f : Found). f.ips) (add_interfaces_lem ifaces nothing_found)
    ∙ add_texts_lem (texts ifaces) nothing_found (λ t. refl)
    ∙ without-nil (firsts (texts ifaces))

abbrev pub AreDistinct : List Bytes → Type 0
AreDistinct [] = Unit
AreDistinct (x ∷ xs) = (mentions x xs ≡ false) × AreDistinct xs

mentions-remove_self : (x : Bytes) (ys : List Bytes) → mentions x (remove x ys) ≡ false
mentions-remove_self x [] = refl
mentions-remove_self x (y ∷ ys) = ground (arith, equal_sym x y, mentions-remove_self x ys)

mentions-remove :
    (x z : Bytes) (ys : List Bytes) → mentions z ys ≡ false → mentions z (remove x ys) ≡ false
mentions-remove x z [] h = refl
mentions-remove x z (y ∷ ys) h = ground (arith, mentions-remove x z ys)

remove-AreDistinct : (x : Bytes) (ys : List Bytes) → AreDistinct ys → AreDistinct (remove x ys)
remove-AreDistinct x [] h = tt
remove-AreDistinct x (y ∷ ys) h =
    ground (arith, remove-AreDistinct x ys h.1, mentions-remove x y ys h.0)

firsts-AreDistinct : (xs : List Bytes) → AreDistinct (firsts xs)
firsts-AreDistinct [] = tt
firsts-AreDistinct (x ∷ xs) =
    (mentions-remove_self x (firsts xs), remove-AreDistinct x (firsts xs) (firsts-AreDistinct xs))

-- `getAllIPs` lists the IPv4 addresses of the interfaces that are up, are no loopback and can be asked
-- for their addresses, in the order of the interfaces, each where it stands first; and none twice.
pub all_ips_lem :
    (ifaces : List Interface)
    → (all_ips (some ifaces) ≡ firsts (texts ifaces)) × AreDistinct (all_ips (some ifaces))
all_ips_lem ifaces =
    (all_ips-firsts ifaces, rw (all_ips-firsts ifaces) (firsts-AreDistinct (texts ifaces)))
