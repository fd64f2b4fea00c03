-- ===== src/Jobs/Guests.antt =====
-- What `_route_backup_source` and `_guest_watcher` of backend/app/jobs/backup_cycle.py make of a
-- cluster's guests and of the lines that vzdump prints.
pub mod Grouping
use joulenap.Prelude.{
  ℕ, suc, Bool, true, false, not, Option, none, some, List, [], ◌∷◌, ◌++◌, map, Text, codes, any,
  is_empty, ◌==◌, if◌then◌else◌, Dict, lookup, insert, after_prefix, starts_with, is_digit,
  read_digits, decimal,
}
use joulenap.Config.{RouteGuests, all, include, exclude}
use joulenap.Remote.{GuestSummary}
use joulenap.Jobs.Clients.{Guest}

abbrev pub is_member : ℕ → List ℕ → Bool
is_member v = any (λ w. w == v)

-- The guest is one of those that the source wants.
unfoldable pub is_chosen : RouteGuests → Guest → Bool
is_chosen selection g = elim selection.mode [
  | all ↦ true
  | include ↦ is_member g.vmid selection.list
  | exclude ↦ not (is_member g.vmid selection.list)
]

abbrev pub listed : Option (List ℕ) → List ℕ
listed none = []
listed (some vmids) = vmids

-- `picked.setdefault(node, []).append(vmid)`
unfoldable pub add_vmid : Text → ℕ → Dict (List ℕ) → Dict (List ℕ)
add_vmid node vmid picked = insert node (listed (lookup node picked) ++ vmid ∷ []) picked

unfoldable pub group_from : RouteGuests → Dict (List ℕ) → List Guest → Dict (List ℕ)
group_from selection picked [] = picked
group_from selection picked (g ∷ guests) =
    group_from selection (if is_chosen selection g then add_vmid g.node g.vmid picked else picked)
      guests

-- `_guests_by_node`
unfoldable pub guests_by_node : RouteGuests → List Guest → Dict (List ℕ)
unfolding group_from
guests_by_node selection guests = group_from selection [] guests

-- A guest that the selection names is not there.
unfoldable pub lacks_some : RouteGuests → List Guest → Bool
lacks_some selection guests =
    any (λ v. not (is_member v (map (λ (g : Guest). g.vmid) guests))) selection.list

-- The name of a guest in `{g.vmid: g.name for g in guests}`, where the last one counts.
unfoldable pub name_of : ℕ → List Guest → Option Text
name_of vmid [] = none
name_of vmid (g ∷ guests) = elim (name_of vmid guests) [
  | some name ↦ some name
  | none ↦ if g.vmid == vmid then some g.name else none
]

-- `names.get(vmid) or str(vmid)`
unfoldable pub label_of : ℕ → List Guest → Text
unfolding name_of
label_of vmid guests = elim (name_of vmid guests) [
  | some name ↦ if is_empty name then decimal vmid else name
  | none ↦ decimal vmid
]

abbrev first_digit : Text → Bool
first_digit [] = false
first_digit (c ∷ t) = is_digit c

-- The number at the front of a text that `tail` follows, if there is one.
abbrev number_then : Text → Option Text → Option ℕ
number_then tail none = none
number_then tail (some t) =
    let (n, rest) = read_digits 0 t in
    if first_digit t then (if starts_with tail rest then some n else none) else none

-- `re.search` of a fixed text, a number and a fixed text: the leftmost match.
unfoldable pub search_number : Text → Text → Text → Option ℕ
search_number head tail [] = none
search_number head tail (c ∷ t) =
    let rest = search_number head tail t in
    elim (number_then tail (after_prefix head (c ∷ t))) [ some n ↦ some n | none ↦ rest ]

-- `_VZDUMP_DONE`
unfoldable pub vzdump_done : Text → Option ℕ
unfolding search_number
vzdump_done = search_number (codes "Finished Backup of VM ") []

-- `_VZDUMP_FAILED`
unfoldable pub vzdump_failed : Text → Option ℕ
unfolding search_number
vzdump_failed = search_number (codes "ERROR: Backup of VM ") (codes " failed")

-- One line of the batch that `_guest_watcher` is handed.
unfoldable pub watch_line : List Guest → Text → GuestSummary → GuestSummary
watch_line guests line summary = elim (vzdump_done line) [
  | some vmid ↦ record summary { ok = suc summary.ok }
  | none ↦ elim (vzdump_failed line) [
    | some vmid ↦ record summary { failed = summary.failed ++ label_of vmid guests ∷ [] }
    | none ↦ summary
  ]
]

-- `_guest_watcher`
unfoldable pub watch_lines : List Guest → List (ℕ × Text) → GuestSummary → GuestSummary
unfolding watch_line
watch_lines guests [] summary = summary
watch_lines guests ((n, line) ∷ lines) summary =
    watch_lines guests lines (watch_line guests line summary)
