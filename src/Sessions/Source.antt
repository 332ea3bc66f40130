-- ===== src/Sessions/Source.antt =====
-- `_source_ip` and `_trusted_proxy_networks` of backend/app/routers/auth.py. The library `ipaddress` is
-- a parameter: its addresses and networks, how they are read and written, and membership.
use Prim.Native.Char.{Char, code}
use mathlib.Core.List.{reverse}
use conductor_data_platform.Prelude.{
  ℕ, String, Bool, true, false, ◌&&◌, ◌||◌, Option, none, some, List, [], ◌∷◌, ◌++◌, ltb, leb, eqb,
  if◌then◌else◌, is_empty, any_row, length, All, ◌≡◌, refl, ap, ◌∙◌, arith, Bool-cases, inl, inr,
}

abbrev longer_first : Char → List String → List String
longer_first c [] = []
longer_first c (s ∷ ss) = String.◌∷◌ c s ∷ ss

-- `value.split(",")`
unfoldable pub split_commas : String → List String
split_commas String.[] = String.[] ∷ []
split_commas (String.◌∷◌ c s) =
    if eqb (code c) b',' then String.[] ∷ split_commas s else longer_first c (split_commas s)

-- `c.isspace()`
abbrev is_space : Char → Bool
is_space c =
    let n = code c in
    (leb 9 n && leb n 13)
    || (leb 28 n && leb n 32)
    || (leb 8192 n && leb n 8202)
    || any_row (λ k. eqb k n) (133 ∷ 160 ∷ 5760 ∷ 8232 ∷ 8233 ∷ 8239 ∷ 8287 ∷ 12288 ∷ [])

unfoldable pub lstrip : String → String
lstrip String.[] = String.[]
lstrip (String.◌∷◌ c s) = if is_space c then lstrip s else String.◌∷◌ c s

unfoldable pub rstrip : String → String
rstrip String.[] = String.[]
rstrip (String.◌∷◌ c s) =
    let rest = rstrip s in if is_space c && is_empty rest then String.[] else String.◌∷◌ c rest

abbrev pub strip : String → String
strip s = lstrip (rstrip s)

unfoldable pub strip_all : List String → List String
unfolding lstrip rstrip
strip_all [] = []
strip_all (s ∷ ss) = strip s ∷ strip_all ss

pub record IpAddress (Ip Network : Type 0) : Type 0 where
  pub ip_address : String → Option Ip
  pub ip_network : String → Option Network
  pub contains : Network → Ip → Bool
  pub show : Ip → String

-- `none` where one of the texts is not read.
unfoldable pub read_all : {A : Type 0} → (String → Option A) → List String → Option (List A)
read_all read [] = some []
read_all read (t ∷ ts) = elim (read t) [
  | none ↦ none
  | some a ↦ elim (read_all read ts) [ none ↦ none | some rest ↦ some (a ∷ rest) ]
]

abbrev or_empty : {A : Type 0} → Option (List A) → List A
or_empty none = []
or_empty (some l) = l

abbrev max_forwarded_hops : ℕ
max_forwarded_hops = 32

module _ {Ip Network : Type 0} (library : IpAddress Ip Network) where
  open library use {ip_address, ip_network, contains, show}

  -- The library reads the two networks of `_LOOPBACK_PROXY_CIDRS`.
  abbrev pub loopback : List Network
  loopback = or_empty (read_all ip_network ("127.0.0.0/8" ∷ "::1/128" ∷ []))

  unfoldable pub trusted_proxy_networks : String → List Network
  unfolding strip_all split_commas read_all
  trusted_proxy_networks cidrs =
      let values = strip_all (split_commas cidrs) in
      if any_row is_empty values
      then loopback
      else elim (read_all ip_network values) [ none ↦ loopback | some networks ↦ networks ]

  abbrev pub is_trusted : List Network → Ip → Bool
  is_trusted networks ip = any_row (λ n. contains n ip) networks

  -- The hops of a header that is well-formed and not too long
  unfoldable pub hops_of : Option String → Option (List Ip)
  unfolding strip_all split_commas read_all
  hops_of none = none
  hops_of (some forwarded_for) =
      let raw_hops = strip_all (split_commas forwarded_for) in
      if ltb max_forwarded_hops (length raw_hops) || any_row is_empty raw_hops
      then none
      else read_all ip_address raw_hops

  unfoldable pub first_untrusted : List Network → List Ip → Option Ip
  first_untrusted networks [] = none
  first_untrusted networks (hop ∷ hops) =
      if is_trusted networks hop then first_untrusted networks hops else some hop

  abbrev show_or : Ip → Option Ip → String
  show_or peer none = show peer
  show_or peer (some hop) = show hop

  abbrev nearest : List Network → Option (List Ip) → Option Ip
  nearest networks none = none
  nearest networks (some hops) = first_untrusted networks (reverse hops)

  unfoldable pub source_ip : String → Option String → Option String → String
  unfolding trusted_proxy_networks hops_of first_untrusted
  source_ip cidrs none header = "unknown"
  source_ip cidrs (some host) header = elim (ip_address host) [
    | none ↦ "unknown"
    | some peer ↦
        let networks = trusted_proxy_networks cidrs in
        if is_trusted networks peer
        then show_or peer (nearest networks (hops_of header))
        else show peer
  ]

  -- What a source address may be
  pub data IsSource (networks : List Network) (peer : Ip) (header : Option String) (source : String)
      : Type 0 where
    is_peer : source ≡ show peer → IsSource networks peer header source
    is_hop :
        (hops nearer farther : List Ip) (hop : Ip)
        → is_trusted networks peer ≡ true
        → hops_of header ≡ some hops
        → reverse hops ≡ nearer ++ hop ∷ farther
        → All (λ near. is_trusted networks near ≡ true) nearer
        → is_trusted networks hop ≡ false
        → source ≡ show hop
        → IsSource networks peer header source

  first_untrusted-split :
      (networks : List Network) (hops : List Ip) (hop : Ip)
      → first_untrusted networks hops ≡ some hop
      → (nearer : List Ip) × (farther : List Ip) × (hops ≡ nearer ++ hop ∷ farther)
        × All (λ near. is_trusted networks near ≡ true) nearer
        × (is_trusted networks hop ≡ false)
  unfolding first_untrusted
  first_untrusted-split networks [] hop h = absurd (cc)
  first_untrusted-split networks (first ∷ hops) hop h =
      elim (Bool-cases (is_trusted networks first)) [
        | inl trusted ↦
            let (nearer, farther, e, all, un) =
              first_untrusted-split networks hops hop (ground arith) in
            (first ∷ nearer, farther, ap (λ l. first ∷ l) e, (trusted, all), un)
        | inr untrusted ↦
            let same : first ≡ hop = ground arith in
            ([], hops, ap (λ x. x ∷ hops) same, tt, rw (← same) untrusted)
      ]

  module _ (networks : List Network) (peer : Ip) (header : Option String) where
    shown-IsSource :
        is_trusted networks peer ≡ true
        → (o : Option (List Ip)) → hops_of header ≡ o
        → (n : Option Ip) → nearest networks o ≡ n
        → IsSource networks peer header (show_or peer n)
    shown-IsSource trusted o read none e = is_peer refl
    shown-IsSource trusted none read (some hop) e = absurd (cc)
    shown-IsSource trusted (some hops) read (some hop) e =
        let (nearer, farther, split, all, un) =
          first_untrusted-split networks (reverse hops) hop e in
        is_hop hops nearer farther hop trusted read split all un refl

    decided-IsSource :
        (b : Bool)
        → is_trusted networks peer ≡ b
        → IsSource networks peer header
            (if b then show_or peer (nearest networks (hops_of header)) else show peer)
    decided-IsSource true trusted =
        shown-IsSource trusted (hops_of header) refl (nearest networks (hops_of header)) refl
    decided-IsSource false untrusted = is_peer refl

  source_ip-eq :
      (cidrs host : String) (header : Option String) (peer : Ip)
      → ip_address host ≡ some peer
      → source_ip cidrs (some host) header ≡ (
          if is_trusted (trusted_proxy_networks cidrs) peer
          then show_or peer (nearest (trusted_proxy_networks cidrs) (hops_of header))
          else show peer)
  unfolding source_ip
  source_ip-eq cidrs host header peer known =
      ap
        (λ o. elim o as (λ _. String) [
          | none ↦ "unknown"
          | some p ↦
              if is_trusted (trusted_proxy_networks cidrs) p
              then show_or p (nearest (trusted_proxy_networks cidrs) (hops_of header))
              else show p
        ])
        known

  -- The source address of a request is that of the peer; only behind a trusted peer it may be a hop of
  -- a well-formed header instead, one that is no trusted proxy and that only trusted proxies stand
  -- behind. So a client that is no trusted proxy cannot choose its address.
  pub source_ip-IsSource :
      (cidrs host : String) (header : Option String) (peer : Ip)
      → ip_address host ≡ some peer
      → IsSource (trusted_proxy_networks cidrs) peer header (source_ip cidrs (some host) header)
        × (is_trusted (trusted_proxy_networks cidrs) peer ≡ false
            → source_ip cidrs (some host) header ≡ show peer)
  source_ip-IsSource cidrs host header peer known =
      let networks = trusted_proxy_networks cidrs in
      let same = source_ip-eq cidrs host header peer known in
      (
        rw same (decided-IsSource networks peer header (is_trusted networks peer) refl),
        λ untrusted.
            same
            ∙ ap (λ b. if b then show_or peer (nearest networks (hops_of header)) else show peer)
                untrusted,
      )
