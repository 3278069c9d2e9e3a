-- ===== src/Config/Modes.antt =====
-- What each form of the ZETPROXY_TUNNEL setting means: the results of `ParseTunnelConfig` of
-- internal/tunnel/sshtun.go.
use zetproxy_turbo.Base.{
  ℕ, ◌≡◌, refl, ◌≢◌, Bool, true, false, ◌||◌, [], ◌∷◌, ◌++◌, arith, if◌then◌else◌, inl, inr,
  Bool-cases,
}
use zetproxy_turbo.Text.{
  Bytes, codes, equal, has_prefix, contains_byte, is_space, trim_left, trim_right, trim_space,
}
use zetproxy_turbo.Text.Laws.{equal_iff}
use zetproxy_turbo.Text.Trim.{trim_right-append}
use zetproxy_turbo.Phone.Agree.{IsTight}
use zetproxy_turbo.Config.{parse_tunnel_config}

-- Nothing but white space.
abbrev pub IsBlank : Bytes → Type 0
IsBlank [] = Unit
IsBlank (c ∷ s) = (is_space c ≡ true) × IsBlank s

abbrev pub StartsInk : Bytes → Type 0
StartsInk [] = ⊥
StartsInk (c ∷ s) = is_space c ≡ false

trim_left-blank : (pre s : Bytes) → IsBlank pre → trim_left (pre ++ s) ≡ trim_left s
unfolding trim_left
trim_left-blank [] s h = refl
trim_left-blank (c ∷ pre) s h = rw (h.0) (trim_left-blank pre s h.1)

trim_left-ink : (s post : Bytes) → StartsInk s → trim_left (s ++ post) ≡ s ++ post
unfolding trim_left
trim_left-ink [] post h = absurd h
trim_left-ink (c ∷ s) post h = rw h refl

trim_right-blank : (s post : Bytes) → IsBlank post → trim_right (s ++ post) ≡ trim_right s
unfolding trim_right
trim_right-blank [] [] h = refl
trim_right-blank [] (c ∷ post) h = rw (trim_right-blank [] post h.1, h.0) refl
trim_right-blank (c ∷ s) post h = rw (trim_right-blank s post h) refl

-- White space around a text is cut off.
trim_lem :
    (pre post v : Bytes)
    → IsBlank pre
    → IsBlank post
    → StartsInk v
    → trim_right v ≡ v
    → trim_space (pre ++ (v ++ post)) ≡ v
unfolding trim_space
trim_lem pre post v h k ink tight =
    rw (trim_left-blank pre (v ++ post) h, trim_left-ink v post ink, trim_right-blank v post k)
      tight

trim_blank : (pre post : Bytes) → IsBlank pre → IsBlank post → trim_space (pre ++ post) ≡ []
unfolding trim_space trim_left trim_right
trim_blank [] [] h k = refl
trim_blank [] (c ∷ post) h k = rw (k.0) (trim_blank [] post h k.1)
trim_blank (c ∷ pre) post h k = rw (h.0) (trim_blank pre post h.1 k)

no_prefix :
    (c : ℕ) (p s : Bytes)
    → contains_byte p c ≡ true
    → contains_byte s c ≡ false
    → has_prefix s p ≡ false
unfolding has_prefix contains_byte
no_prefix c [] s h k = absurd (ground arith)
no_prefix c (x ∷ p) [] h k = refl
no_prefix c (x ∷ p) (y ∷ s) h k = ground (arith, no_prefix c p s)

relay_form :
    (s r : Bytes)
    → r ≢ []
    → trim_space s ≡ codes "relay:" ++ r
    → parse_tunnel_config s ≡ (codes "relay", r)
unfolding parse_tunnel_config equal has_prefix
relay_form s [] n e = absurd (n refl)
relay_form s (c ∷ r) n e = rw e refl

serveo_form :
    (s r : Bytes)
    → trim_space s ≡ codes "serveo:" ++ r
    → r ≢ []
    → parse_tunnel_config s ≡ (codes "serveo", r)
unfolding parse_tunnel_config equal has_prefix
serveo_form s [] e n = absurd (n refl)
serveo_form s (c ∷ r) e n = rw e refl

-- Whether a text names a host by an at sign or a dot.
abbrev pub names_host : Bytes → Bool
names_host h = contains_byte h b'@' || contains_byte h b'.'

ssh_form :
    (s r : Bytes)
    → trim_space s ≡ codes "ssh:" ++ r
    → parse_tunnel_config s ≡ (codes "ssh", (if names_host r then r else codes "serveo.net"))
unfolding parse_tunnel_config equal has_prefix
ssh_form s r e = rw e refl

-- No setting that begins with a word and a colon, and none of the words that give another end.
pub record IsHost (h : Bytes) : Type 0 where
  pub inked : StartsInk h
  pub tight : trim_right h ≡ h
  pub no_colon : contains_byte h b':' ≡ false
  pub no_word : (h ≢ codes "serveo") × (h ≢ codes "serveo.net") × (h ≢ codes "localrun")

unequal : (h w : Bytes) → h ≢ w → equal h w ≡ false
unequal h w n = ground (arith, equal_iff h w)

word_lem : (h w : Bytes) → names_host w ≡ false → equal h w ≡ true → names_host h ≡ false
word_lem h w n e = rw ((equal_iff h w).0 e) n

word_names_none :
    (h : Bytes)
    → (equal h (codes "ssh")
        || equal h (codes "1")
        || equal h (codes "true")
        || equal h (codes "yes"))
      ≡ true
    → names_host h ≡ false
unfolding contains_byte
word_names_none h e =
    let a = word_lem h (codes "ssh") refl in
    let b = word_lem h (codes "1") refl in
    let c = word_lem h (codes "true") refl in let d = word_lem h (codes "yes") refl in ground arith

filled : (h : Bytes) → StartsInk h → h ≢ []
filled [] k e = k
filled (c ∷ h) k e = ground arith

host_form :
    (s h : Bytes)
    → IsHost h
    → trim_space s ≡ h
    → parse_tunnel_config s ≡ (codes "ssh", (if names_host h then h else codes "serveo.net"))
unfolding parse_tunnel_config contains_byte
host_form s h v e =
    let (n, n', n'') = v.no_word in
    let a = unequal h [] (filled h v.inked) in
    let b = unequal h (codes "serveo") n in
    let c = unequal h (codes "serveo.net") n' in
    let d = unequal h (codes "localrun") n'' in
    let p = no_prefix b':' (codes "relay:") h refl v.no_colon in
    let q = no_prefix b':' (codes "serveo:") h refl v.no_colon in
    let r = no_prefix b':' (codes "ssh:") h refl v.no_colon in
    rw e (
      rw (a, b, c, d, p, q, r)
        (elim (Bool-cases (
          equal h (codes "ssh")
          || equal h (codes "1")
          || equal h (codes "true")
          || equal h (codes "yes"))) [
            | inl w ↦ rw (w, word_names_none h w) refl
            | inr w ↦
                rw w (elim (Bool-cases (names_host h)) [ inl y ↦ rw y refl | inr y ↦ rw y refl ])
          ]))

-- Let the setting have any white space around its text. No text gives no mode; "serveo" and
-- "serveo.net" give the mode "serveo" without a host; "ssh", "1", "true" and "yes" the mode "ssh" with
-- serveo.net, "localrun" with nokey@localhost.run. "relay:" gives the mode "relay" with the relay's
-- address behind the colon, and with 127.0.0.1:7800 if none is there; "serveo:" the mode "serveo" with
-- what is behind it; "ssh:" the mode "ssh" with what is behind it, and with serveo.net if that has
-- neither an at sign nor a dot. Any other text without a colon gives the mode "ssh" with this text as
-- the host under the same condition, and else with serveo.net.
pub parse_tunnel_config_lem :
    (pre post r h : Bytes)
    → IsBlank pre
    → IsBlank post
    → IsTight r
    → IsHost h
    → let parsed : Bytes → Bytes × Bytes = λ v. parse_tunnel_config (pre ++ (v ++ post)) in
      let default = codes "serveo.net" in
      (parsed [] ≡ ([], []))
      × (parsed (codes "serveo") ≡ (codes "serveo", []))
      × (parsed (codes "serveo.net") ≡ (codes "serveo", []))
      × (parsed (codes "ssh") ≡ (codes "ssh", default))
      × (parsed (codes "1") ≡ (codes "ssh", default))
      × (parsed (codes "true") ≡ (codes "ssh", default))
      × (parsed (codes "yes") ≡ (codes "ssh", default))
      × (parsed (codes "localrun") ≡ (codes "ssh", codes "nokey@localhost.run"))
      × (parsed (codes "relay:") ≡ (codes "relay", codes "127.0.0.1:7800"))
      × (parsed (codes "relay:" ++ r) ≡ (codes "relay", r))
      × (parsed (codes "serveo:" ++ r) ≡ (codes "serveo", r))
      × (parsed (codes "ssh:" ++ r) ≡ (codes "ssh", (if names_host r then r else default)))
      × (parsed h ≡ (codes "ssh", (if names_host h then h else default)))
unfolding parse_tunnel_config equal has_prefix is_space trim_right
parse_tunnel_config_lem pre post r h a b tight v =
    let form : (v : Bytes) → StartsInk v → trim_right v ≡ v → trim_space (pre ++ (v ++ post)) ≡ v =
      λ v. trim_lem pre post v a b in
    let behind : (p : Bytes) → trim_right (p ++ r) ≡ p ++ r =
      λ p. trim_right-append p r tight.0 tight.1 in
    (
      rw (trim_blank pre post a b) refl,
      rw (form (codes "serveo") refl refl) refl,
      rw (form (codes "serveo.net") refl refl) refl,
      rw (form (codes "ssh") refl refl) refl,
      rw (form (codes "1") refl refl) refl,
      rw (form (codes "true") refl refl) refl,
      rw (form (codes "yes") refl refl) refl,
      rw (form (codes "localrun") refl refl) refl,
      rw (form (codes "relay:") refl refl) refl,
      relay_form (pre ++ ((codes "relay:" ++ r) ++ post)) r tight.0
          (form (codes "relay:" ++ r) refl (behind (codes "relay:"))),
      serveo_form (pre ++ ((codes "serveo:" ++ r) ++ post)) r
          (form (codes "serveo:" ++ r) refl (behind (codes "serveo:"))) tight.0,
      ssh_form (pre ++ ((codes "ssh:" ++ r) ++ post)) r
          (form (codes "ssh:" ++ r) refl (behind (codes "ssh:"))),
      host_form (pre ++ (h ++ post)) h v (form h v.inked v.tight),
    )
