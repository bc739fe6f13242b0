-- ===== src/Relay/Handler/Routes.antt =====
-- noray/src/relay/udp.relay.handler.mjs, the relay table: which port an address has.
use bevy_noray.Base.{
  subst, find_test, suc, ℕ, nat_eq, ◌≡◌, sym, ap, refl, inl, inr, Bool-cases, false, Option,
  Option-cases, none, some, List, [], ◌∷◌, ◌++◌, arith, if◌then◌else◌, find, find_index, erase_idx,
  elem, Distinct,
}
use bevy_noray.Relay.Address.{NetAddress, address_eq, equals, equals_iff}
use bevy_noray.Relay.Entry.{RelayEntry, entry_equals}
use bevy_noray.Relay.Handler.Invariant.{addresses}
use bevy_noray.Relay.Handler.Invariant.Freeing.{Agrees}
use bevy_noray.Repository.Laws.{assign}

-- Which port an address has.
unfoldable pub route : List RelayEntry → NetAddress → Option ℕ
route [] a = none
route (e ∷ es) a = if equals e.address a then some e.port else route es a

pub find-route :
    (es : List RelayEntry) (a : NetAddress)
    → route es a ≡ elim (find (λ e. equals e.address a) es) [ none ↦ none | some e ↦ some e.port ]
unfolding route
find-route [] a = refl
find-route (e ∷ es) a = ground (arith, find-route es a)

pub route-append :
    (es : List RelayEntry) (e : RelayEntry) (a : NetAddress)
    → route es e.address ≡ none
    → route (es ++ e ∷ []) a ≡ assign (route es) e.address (some e.port) a
unfolding route
route-append [] e a n = ground arith
route-append (x ∷ es) e a n = ground (
  arith,
  n,
  route-append es e a,
  equals_iff x.address a,
  equals_iff e.address a,
  equals_iff x.address e.address,
)

pub route-absent :
    (es : List RelayEntry) (a : NetAddress) → elem a (addresses es) ≡ false → route es a ≡ none
unfolding route
route-absent [] a h = refl
route-absent (x ∷ es) a h =
    ground (arith, h, route-absent es a, equals_iff a x.address, equals_iff x.address a)

pub route-erase_idx :
    (es : List RelayEntry) (i : ℕ) (e : RelayEntry) (a : NetAddress)
    → find_index (λ x. entry_equals x e) es ≡ some i
    → Distinct (addresses es)
    → route (erase_idx es i) a ≡ assign (route es) e.address none a
unfolding route entry_equals
route-erase_idx [] i e a s d = absurd (ground arith)
route-erase_idx (x ∷ es) i e a s d = elim (Bool-cases (equals x.address e.address)) [
  | inl hit ↦
      let here : i ≡ 0 = ground (arith, s, hit) in
      rw here (
        ground (
          arith,
          hit,
          d.0,
          route-absent es a,
          equals_iff x.address a,
          equals_iff e.address a,
          equals_iff x.address e.address,
        ))
  | inr miss ↦ elim (Option-cases (find_index (λ x. entry_equals x e) es)) [
    | inl n ↦ absurd (ground (arith, s, miss, n))
    | inr (j, t) ↦
        let there : i ≡ suc j = ground (arith, s, miss, t) in
        rw there (
          ground (
            arith,
            miss,
            route-erase_idx es j e a t d.1,
            equals_iff x.address a,
            equals_iff e.address a,
            equals_iff x.address e.address,
          ))
  ]
]

pub found :
    (es : List RelayEntry) (a : NetAddress) (e : RelayEntry)
    → find (λ x. equals x.address a) es ≡ some e
    → find (λ x. entry_equals x e) es ≡ some e
unfolding entry_equals
found es a e s =
    let here : e.address ≡ a =
      (equals_iff e.address a).0 (find_test (λ x. equals x.address a) es e s) in
    subst (λ b. find (λ x. equals x.address b) es ≡ some e) (sym here) s

pub unique :
    (es : List RelayEntry) (e : RelayEntry) → find (λ x. entry_equals x e) es ≡ some e → Agrees es e
unique es e s x f =
    let same : x ≡ e = ground (arith, f, s) in ap {A = RelayEntry} (λ y. y.port) same
