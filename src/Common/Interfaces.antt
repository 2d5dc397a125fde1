-- ===== src/Common/Interfaces.antt =====
-- `interface_to_ipaddr` (common/src/lib.rs). The list that `pnet_datalink::interfaces` returns is an
-- argument.
mod Runs
use Prim.Native.String.{String}
use text.Mathlib.Text.{◌==◌}
use text.Mathlib.TextEquality.{eq_iff}
use niceperf.Prelude.{
  ◌≡◌, ◌≢◌, ◌↔◌, refl, ap, Bool, true, ◌||◌, Option, none, some, List, [], ◌∷◌, ◌++◌, if◌then◌else◌,
  All, arith, Bool-cases, Option-cases, inl, inr,
}
use niceperf.Prelude.Outcome.{Outcome, ok, ok_or, ◌>>=◌}
use niceperf.Common.Os.{IpAddr, v4, v6, Error, no_interface, no_address}

pub record Interface : Type 0 where
  pub name : String
  pub ips : List IpAddr

is_ipv4 : IpAddr → Bool
is_ipv4 (v4 a) = true
is_ipv4 (v6 a) = Bool.false

is_ipv6 : IpAddr → Bool
is_ipv6 (v4 a) = Bool.false
is_ipv6 (v6 a) = true

find_interface : String → List Interface → Option Interface
find_interface name [] = none
find_interface name (i ∷ is) = if i.name == name then some i else find_interface name is

find_ip : List IpAddr → Option IpAddr
find_ip [] = none
find_ip (a ∷ as') = if is_ipv4 a || is_ipv6 a then some a else find_ip as'

pub interface_to_ipaddr : String → List Interface → Outcome Error IpAddr
interface_to_ipaddr name interfaces = do
  i ← ok_or (find_interface name interfaces) no_interface
  ok_or (find_ip i.ips) no_address

abbrev pub Unnamed : String → List Interface → Type 0
Unnamed name = All (λ i. i.name ≢ name)

-- The interface that comes first under its name.
pub record First (name : String) (i : Interface) (interfaces : List Interface) : Type 0 where
  pub before : List Interface
  pub after : List Interface
  pub split : interfaces ≡ before ++ i ∷ after
  pub named : i.name ≡ name
  pub unnamed : Unnamed name before

find_interface→First :
    (name : String) (is : List Interface) (i : Interface)
    → find_interface name is ≡ some i
    → First name i is
unfolding find_interface
find_interface→First name [] i h = ground arith
find_interface→First name (j ∷ is) i h = elim (Bool-cases (j.name == name)) [
  | inl same ↦ record {
    before = [];
    after = is;
    split = ground arith;
    named = ground (arith, eq_iff j.name name);
    unnamed = tt;
  }
  | inr other ↦
      let later = find_interface→First name is i (rw other at h) in
      record {
        before = j ∷ later.before;
        after = later.after;
        split = ap (λ l. j ∷ l) later.split;
        named = later.named;
        unnamed = (λ same. cc (other, (eq_iff j.name name).1 same), later.unnamed);
      }
]

First→find_interface :
    (name : String) (before after : List Interface) (i : Interface)
    → i.name ≡ name
    → Unnamed name before
    → find_interface name (before ++ i ∷ after) ≡ some i
unfolding find_interface
First→find_interface name [] after i h u = ground (arith, eq_iff i.name name)
First→find_interface name (j ∷ before) after i h (n, u) =
    ground (arith, eq_iff j.name name, First→find_interface name before after i h u)

find_ip-cons : (a : IpAddr) (rest : List IpAddr) → find_ip (a ∷ rest) ≡ some a
unfolding find_ip is_ipv4 is_ipv6
find_ip-cons (v4 a) rest = refl
find_ip-cons (v6 a) rest = refl

find_ip→cons :
    (ips : List IpAddr) (a : IpAddr)
    → find_ip ips ≡ some a
    → (rest : List IpAddr) × (ips ≡ a ∷ rest)
find_ip→cons [] a h = unfold find_ip in ground arith
find_ip→cons (b ∷ ips) a h = (ips, ground (arith, find_ip-cons b ips))

ok_or-ok : (o : Option IpAddr) (e : Error) (a : IpAddr) → ok_or o e ≡ ok a → o ≡ some a
ok_or-ok none e a h = cc
ok_or-ok (some b) e a h = ground arith

address→First :
    (name : String) (interfaces : List Interface) (a : IpAddr)
    → interface_to_ipaddr name interfaces ≡ ok a
    → (i : Interface) × (rest : List IpAddr) × First name i interfaces × (i.ips ≡ a ∷ rest)
unfolding interface_to_ipaddr
address→First name interfaces a h = elim (Option-cases (find_interface name interfaces)) [
  | inl nothing ↦ ground arith
  | inr (i, found) ↦
      let (rest, e) = find_ip→cons i.ips a (ok_or-ok _ no_address a (rw found at h)) in
      (i, rest, find_interface→First name interfaces i found, e)
]

First→address :
    (name : String) (interfaces : List Interface) (a : IpAddr)
    → (i : Interface) × (rest : List IpAddr) × First name i interfaces × (i.ips ≡ a ∷ rest)
    → interface_to_ipaddr name interfaces ≡ ok a
unfolding interface_to_ipaddr
First→address name interfaces a (i, rest, f, e) =
    rw (f.split, First→find_interface name f.before f.after i f.named f.unnamed, e)
      (ap (λ o. ok_or o no_address) (find_ip-cons a rest))

-- The result is the address `a` exactly when `a` is the first address of the first interface that has
-- the name.
pub interface_to_ipaddr-First :
    (name : String) (interfaces : List Interface) (a : IpAddr)
    → (interface_to_ipaddr name interfaces ≡ ok a)
      ↔ ((i : Interface) × (rest : List IpAddr) × First name i interfaces × (i.ips ≡ a ∷ rest))
interface_to_ipaddr-First name interfaces a =
    (address→First name interfaces a, First→address name interfaces a)
