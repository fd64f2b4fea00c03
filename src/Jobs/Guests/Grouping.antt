-- ===== src/Jobs/Guests/Grouping.antt =====
-- `_guests_by_node` of backend/app/jobs/backup_cycle.py against a filter of the listing.
use joulenap.Prelude.{
  ◌≡◌, refl, ap, ◌∙◌, ℕ, ◌&&◌, Option, none, some, List, [], ◌∷◌, ◌++◌, map, filter, Text, text_eq,
  text_eq_iff, is_empty, if◌then◌else◌, Dict, lookup, lookup-insert, Bool-cases, inl, inr, arith,
}
use mathlib.Core.List.{append_assoc}
use joulenap.Config.{RouteGuests}
use joulenap.Jobs.Clients.{Guest}
use joulenap.Jobs.Guests.{is_chosen, listed, add_vmid, group_from, guests_by_node}

-- The guests of a node that the selection wants, in the order of the listing.
abbrev pub wanted_on : RouteGuests → Text → List Guest → List ℕ
wanted_on selection node guests =
    map (λ (g : Guest). g.vmid)
      (filter (λ (g : Guest). is_chosen selection g && text_eq g.node node) guests)

abbrev joined : Option (List ℕ) → List ℕ → Option (List ℕ)
joined o [] = o
joined none (v ∷ vs) = some (v ∷ vs)
joined (some us) (v ∷ vs) = some (us ++ v ∷ vs)

lookup-add_vmid :
    (j node : Text) (v : ℕ) (d : Dict (List ℕ))
    → lookup j (add_vmid node v d)
      ≡ (if text_eq node j then joined (lookup j d) (v ∷ []) else lookup j d)
unfolding add_vmid
lookup-add_vmid j node v d =
    ground (arith, lookup-insert node j (listed (lookup node d) ++ v ∷ []) d, text_eq_iff node j)

joined-joined :
    (o : Option (List ℕ)) (v : ℕ) (vs : List ℕ) → joined (joined o (v ∷ [])) vs ≡ joined o (v ∷ vs)
joined-joined none v [] = refl
joined-joined none v (u ∷ vs) = refl
joined-joined (some us) v [] = refl
joined-joined (some us) v (u ∷ vs) = ap some (append_assoc us (v ∷ []) (u ∷ vs))

joined-none : (vs : List ℕ) → joined none vs ≡ (if is_empty vs then none else some vs)
joined-none [] = refl
joined-none (v ∷ vs) = refl

lookup-group_from :
    (s : RouteGuests) (node : Text) (d : Dict (List ℕ)) (guests : List Guest)
    → lookup node (group_from s d guests) ≡ joined (lookup node d) (wanted_on s node guests)
unfolding group_from
lookup-group_from s node d [] = refl
lookup-group_from s node d (g ∷ guests) = elim (Bool-cases (is_chosen s g)) [
  | inl c ↦ elim (Bool-cases (text_eq g.node node)) [
    | inl e ↦
        rw
          (
            c,
            e,
            lookup-group_from s node (add_vmid g.node g.vmid d) guests,
            lookup-add_vmid node g.node g.vmid d,
            e,
          )
          (joined-joined (lookup node d) g.vmid (wanted_on s node guests))
    | inr e ↦
        rw
          (
            c,
            e,
            lookup-group_from s node (add_vmid g.node g.vmid d) guests,
            lookup-add_vmid node g.node g.vmid d,
            e,
          )
          refl
  ]
  | inr c ↦ rw (c, lookup-group_from s node d guests) refl
]

-- Each node is given the guests on it that the selection wants, in the order of the listing, and a
-- node without any is not in the result.
pub lookup-guests_by_node :
    (s : RouteGuests) (node : Text) (guests : List Guest)
    → lookup node (guests_by_node s guests)
      ≡ (if is_empty (wanted_on s node guests) then none else some (wanted_on s node guests))
unfolding guests_by_node lookup
lookup-guests_by_node s node guests =
    lookup-group_from s node [] guests ∙ joined-none (wanted_on s node guests)
