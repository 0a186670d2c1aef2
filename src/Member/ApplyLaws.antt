-- ===== src/Member/ApplyLaws.antt =====
-- What a delta of members does (`apply_delta` of common/src/board_state/member.rs).
use free_talk.Shared.{
  ℕ, ◌≤◌, ◌≡◌, ◌≢◌, ◌↔◌, refl, sym, ◌∙◌, arith, true, not, ◌||◌, List, [], ◌∷◌, Option, none, some,
  ok, err, for_each, for_each-All, contains, map, length, All, All-mono, All-zip, Distinct, nat_eq,
  list_eq, >>=-eq-ok, retain,
}
use free_talk.Shared.HashMap
use free_talk.Shared.HashMap.{HashMap}
use free_talk.Shared.HashSet
use free_talk.Shared.HashSet.{HashSet}
use free_talk.Shared.Dedup.{
  by_id, or_insert_all, push_new, by_id-Keyed, or_insert_all-Keyed, push_new-All, push_new-Distinct,
  contains-push_new,
}
use free_talk.Shared.Order.{Ascending, Distinct-of_Ascending, sort_by_key, sort_by}
use free_talk.Shared.Lookup.{get-or_insert_all}
use free_talk.Model.{
  Crypto, MemberId, AuthorizedMember, AuthorizedUserBan, ChatBoardParametersV1, ChatBoardStateV1,
  member_id, owner_in_members,
}
use free_talk.Member.Chain.{
  invited_by, owner_id, members_by_member_id, verify_signature, verify, check_member,
  verify_member_invite_with_lookup,
}
use free_talk.Member.Downstream.{banned_user, banned_ids, remove_banned_members}
use free_talk.Member.DownstreamEnds.{Acyclic, rounds, get_downstream_members_total}
use free_talk.Member.Removal.{Banned, settle_iff}
use free_talk.Member.Verify.{Admitted, verify_iff, key_of_owner}
use free_talk.Member.Keeps.{Admitted-mono, settle-Admitted, get-combined, checked_invite}
use free_talk.Member.Apply.{settle, apply_delta}

abbrev pub added : Option (List AuthorizedMember) → List AuthorizedMember
added none = []
added (some ds) = ds

module _ (c : Crypto) (state : ChatBoardStateV1) (p : ChatBoardParametersV1) (fuel : ℕ) where
  abbrev ids : List AuthorizedMember → List MemberId
  ids l = map (member_id c) l

  abbrev pub merge : List AuthorizedMember → Option (List AuthorizedMember) → List AuthorizedMember
  merge xs d = push_new (member_id c) xs (added d)

  -- The members verify, and their identifiers ascend.
  pub record IsValid (xs : List AuthorizedMember) : Type 0 where
    pub verified : verify c xs p ≡ ok tt
    pub sorted : Ascending (ids xs)

  apply_delta_step :
      (xs r : List AuthorizedMember) (d : Option (List AuthorizedMember))
      → apply_delta c xs fuel state p d ≡ ok r
      → (for_each
            (λ x.
              verify_member_invite_with_lookup c x p
                (or_insert_all (member_id c) (members_by_member_id c xs) (added d)))
            (added d)
          ≡ ok tt)
        × (settle c (merge xs d) fuel state ≡ ok r)
  unfolding apply_delta push_new
  apply_delta_step xs r none h = (refl, h)
  apply_delta_step xs r (some ds) h =
      let q =
        >>=-eq-ok
          (for_each
            (λ x.
              verify_member_invite_with_lookup c x p
                (or_insert_all (member_id c) (members_by_member_id c xs) ds))
            ds)
          (λ _. settle c (push_new (member_id c) xs ds) fuel state) h in
      (q.1, q.2)

  -- After an accepted delta the members are those before and those of the delta, without whomever a
  -- ban names and without all below them.
  pub apply_delta_iff :
      (xs r : List AuthorizedMember) (d : Option (List AuthorizedMember)) (k : MemberId)
      → apply_delta c xs fuel state p d ≡ ok r
      → (contains (ids r) k ≡ true) ↔ (
          ((contains (ids xs) k || contains (ids (added d)) k) ≡ true)
          × ¬ Banned c (merge xs d) state.bans k)
  apply_delta_iff xs r d k h =
      let q = settle_iff c (merge xs d) fuel state r k (apply_delta_step xs r d h).1 in
      let e = contains-push_new (member_id c) xs (added d) k in
      ((λ x. (sym e ∙ (q.0 x).0, (q.0 x).1)), λ y. q.1 (e ∙ y.0, y.1))

  -- A delta without the owner keeps the members valid: all new members are verified, and whoever
  -- loses his chain of invitations to a ban is removed.
  pub apply_delta-IsValid :
      (xs r : List AuthorizedMember) (d : Option (List AuthorizedMember))
      → IsValid xs
      → All (λ x. member_id c x ≢ owner_id c p) (added d)
      → apply_delta c xs fuel state p d ≡ ok r
      → IsValid r
  apply_delta-IsValid xs r d v others h =
      let settled =
        settle-Admitted c p (merge xs d) r fuel state
          (push_new-Distinct (member_id c) xs (added d) distinct) all_admitted
          (apply_delta_step xs r d h).1 in
      record { verified = (verify_iff c p r).1 settled.0; sorted = settled.1 }
    where
      distinct : Distinct (ids xs)
      distinct = Distinct-of_Ascending (ids xs) v.sorted

      combined : HashMap MemberId AuthorizedMember
      combined = or_insert_all (member_id c) (members_by_member_id c xs) (added d)

      after : HashMap MemberId AuthorizedMember
      after = by_id (member_id c) (merge xs d)

      widen :
          (k : MemberId) (i : AuthorizedMember)
          → HashMap.get k (members_by_member_id c xs) ≡ some i
          → HashMap.get k after ≡ some i
      widen k i e =
          sym (get-combined c p xs (added d) k distinct)
          ∙ ground
              (arith, e, get-or_insert_all (member_id c) k (members_by_member_id c xs) (added d))

      new : All (Admitted c p after) (added d)
      new =
          All-mono
            (λ x.
              (member_id c x ≢ owner_id c p)
              × (verify_member_invite_with_lookup c x p combined ≡ ok tt))
            (Admitted c p after) (added d)
            (λ x h.
              Admitted-mono c p combined after x
                (λ k i e. sym (get-combined c p xs (added d) k distinct) ∙ e)
                (checked_invite c p combined x
                  (or_insert_all-Keyed (member_id c) (members_by_member_id c xs) (added d)
                    (by_id-Keyed (member_id c) xs))
                  h.0 h.1))
            (All-zip (λ x. member_id c x ≢ owner_id c p)
              (λ x. verify_member_invite_with_lookup c x p combined ≡ ok tt) (added d) others
              (for_each-All (λ x. verify_member_invite_with_lookup c x p combined) (added d)
                (apply_delta_step xs r d h).0))

      all_admitted : All (Admitted c p after) (merge xs d)
      all_admitted =
          push_new-All (member_id c) (Admitted c p after) xs (added d)
            (All-mono (Admitted c p (members_by_member_id c xs)) (Admitted c p after) xs
              (λ x. Admitted-mono c p (members_by_member_id c xs) after x widen)
              ((verify_iff c p xs).0 v.verified))
            new

module _ (c : Crypto) (rank : MemberId → ℕ) (members : List AuthorizedMember) where
  banned_ids-total :
      (fuel : ℕ) (ids : HashSet MemberId) (bans : List AuthorizedUserBan)
      → Acyclic c rank members
      → All (λ b. rounds (length members) (rank (banned_user b)) ≤ fuel) bans
      → (r : HashSet MemberId) × (banned_ids c members fuel ids bans ≡ some r)
  unfolding banned_ids
  banned_ids-total fuel ids [] acyclic enough = (ids, refl)
  banned_ids-total fuel ids (b ∷ bans) acyclic enough =
      let (ds, got) =
        get_downstream_members_total c rank members fuel (banned_user b) acyclic enough.0 in
      let (r, rest) =
        banned_ids-total fuel (HashSet.extend (HashSet.insert (banned_user b) ids) ds) bans acyclic
          enough.1 in
      (r, rw (got, banned_ids) rest)

  -- Where invitations make no circle, and the fuel is enough for the rank of every banned member, the
  -- removal of banned members ends.
  settle_total :
      (fuel : ℕ) (state : ChatBoardStateV1)
      → Acyclic c rank members
      → All (λ b. rounds (length members) (rank (banned_user b)) ≤ fuel) state.bans
      → (r : List AuthorizedMember) × (settle c members fuel state ≡ ok r)
  unfolding settle remove_banned_members
  settle_total fuel state acyclic enough =
      let (ids, built) = banned_ids-total fuel [] state.bans acyclic enough in
      (
        sort_by_key (member_id c) (retain (λ m. not (contains ids (member_id c m))) members),
        rw (built, remove_banned_members, settle),
      )

settle_single :
    (c : Crypto) (state : ChatBoardStateV1) (fuel : ℕ) (x : AuthorizedMember)
    → state.bans ≡ []
    → settle c (x ∷ []) fuel state ≡ ok (x ∷ [])
unfolding settle remove_banned_members banned_ids sort_by_key sort_by
settle_single c state fuel x nobody = rw (nobody, settle, remove_banned_members, banned_ids)

owner_invite :
    (c : Crypto) (p : ChatBoardParametersV1) (x : AuthorizedMember)
    (m : HashMap MemberId AuthorizedMember)
    → invited_by x ≡ owner_id c p
    → verify_signature c x p.owner ≡ true
    → verify_member_invite_with_lookup c x p m ≡ ok tt
unfolding verify_member_invite_with_lookup
owner_invite c p x m inviter signed = ground arith

owner_refused :
    (c : Crypto) (p : ChatBoardParametersV1) (x : AuthorizedMember)
    → member_id c x ≡ owner_id c p
    → verify c (x ∷ []) p ≡ err owner_in_members
unfolding verify check_member
owner_refused c p x same = ground arith

-- A delta may add a member with the owner's own key, signed by the owner: `apply_delta` accepts him
-- where nobody is banned, and the verification of the members then fails.
apply_delta_owner :
    (c : Crypto) (state : ChatBoardStateV1) (p : ChatBoardParametersV1) (fuel : ℕ)
    (x : AuthorizedMember)
    → x.member.member_vk ≡ p.owner
    → invited_by x ≡ owner_id c p
    → verify_signature c x p.owner ≡ true
    → state.bans ≡ []
    → (apply_delta c [] fuel state p (some (x ∷ [])) ≡ ok (x ∷ []))
      × (verify c (x ∷ []) p ≡ err owner_in_members)
unfolding apply_delta push_new
apply_delta_owner c state p fuel x key inviter signed nobody = (
  rw (owner_invite c p x ((member_id c x, x) ∷ []) inviter signed)
      (settle_single c state fuel x nobody),
  owner_refused c p x (key_of_owner c p x key),
)
