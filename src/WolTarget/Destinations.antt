-- ===== src/WolTarget/Destinations.antt =====
-- The destinations of `wol_target` (backend/app/connectors/net.py).
use joulenap.Prelude.{
  ◌≡◌, ◌⊎◌, inl, inr, refl, Bool, true, false, Option, none, some, List, [], ◌∷◌, Text, find,
  is_empty, Bool-cases, arith,
}
use joulenap.WolTarget.{NetInterface, Network, find_interface, address_of, choose, aim, wol_target}

find-holds {ℓ} : {A : Type ℓ} (p : A → Bool) (xs : List A) {a : A} → find p xs ≡ some a → p a ≡ true
find-holds p [] h = absurd (cc)
find-holds p (x ∷ xs) {a} h = elim (Bool-cases (p x)) [
  | inl e ↦ cc (rw e at h, e)
  | inr e ↦ find-holds p xs (rw e at h)
]

-- What a packet for `host` is sent to, and from which address.
pub record IsTarget (net : Network) (host iface_name : Text) (target : Text × Option Text)
    : Type 0 where
  pub scoped :
      (target.0 ≡ host)
      ⊎ ((ip : Text) × (i : NetInterface) × (net.resolve_ip host ≡ some ip)
          × (net.contains i ip ≡ true)
          × (target ≡ (net.broadcast i, some i.address)))
  pub bound :
      (i : NetInterface)
      → is_empty iface_name ≡ false
      → find_interface iface_name net.listed ≡ some i
      → target.1 ≡ some i.address
  pub unresolved : net.resolve_ip host ≡ none → target.0 ≡ host
  pub local :
      (ip : Text) (i : NetInterface)
      → iface_name ≡ []
      → net.resolve_ip host ≡ some ip
      → find (λ j. net.contains j ip) net.listed_again ≡ some i
      → target ≡ (net.broadcast i, some i.address)

module _ (net : Network) (host : Text) where
  aim-scoped :
      (o : Option Text) (i : Option NetInterface)
      → ((aim net host o i).0 ≡ host)
        ⊎ ((ip : Text) × (j : NetInterface) × (o ≡ some ip)
            × (net.contains j ip ≡ true)
            × (aim net host o i ≡ (net.broadcast j, some j.address)))
  unfolding aim
  aim-scoped (some ip) (some i) = elim (Bool-cases (net.contains i ip)) [
    | inl e ↦ inr (ip, i, refl, e, ground arith)
    | inr e ↦ inl (ground arith)
  ]
  aim-scoped none (some i) = inl refl
  aim-scoped (some ip) none = inl refl
  aim-scoped none none = inl refl

  aim-address : (o : Option Text) (i : Option NetInterface) → (aim net host o i).1 ≡ address_of i
  unfolding aim
  aim-address (some ip) (some i) = ground arith
  aim-address none (some i) = refl
  aim-address (some ip) none = refl
  aim-address none none = refl

  aim-none : (i : Option NetInterface) → (aim net host none i).0 ≡ host
  unfolding aim
  aim-none none = refl
  aim-none (some i) = refl

  aim-local :
      (ip : Text) (i : NetInterface)
      → net.contains i ip ≡ true
      → aim net host (some ip) (some i) ≡ (net.broadcast i, some i.address)
  unfolding aim
  aim-local ip i e = ground arith

choose-named :
    (net : Network) (iface_name : Text) (o : Option Text) {i : NetInterface}
    → is_empty iface_name ≡ false
    → find_interface iface_name net.listed ≡ some i
    → choose net iface_name o ≡ some i
unfolding choose
choose-named net iface_name o n e = ground arith

choose-subnet :
    (net : Network) (ip : Text) {i : NetInterface}
    → find (λ j. net.contains j ip) net.listed_again ≡ some i
    → choose net [] (some ip) ≡ some i
unfolding choose
choose-subnet net ip e = e

-- A packet is sent to the box's own address, or to the broadcast address of an interface whose
-- subnet contains the box; to the former wherever the host does not resolve. An interface that is
-- configured and present is the one the packet leaves from, and where none is configured but one
-- is on the box's subnet, the packet goes to that one's broadcast address.
pub wol_target-IsTarget :
    (net : Network) (host iface_name : Text)
    → IsTarget net host iface_name (wol_target net host iface_name)
unfolding wol_target
wol_target-IsTarget net host iface_name =
    let ip = net.resolve_ip host in
    record {
      scoped = aim-scoped net host ip (choose net iface_name ip);
      bound = λ i n e.
          rw
            (aim-address net host ip (choose net iface_name ip), choose-named net iface_name ip n e)
            refl;
      unresolved = λ e. rw e (aim-none net host (choose net iface_name none));
      local = λ a i n e f.
          rw (n, e, choose-subnet net a f)
            (aim-local net host a i (find-holds (λ j. net.contains j a) net.listed_again f));
    }
