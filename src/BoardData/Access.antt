-- ===== src/BoardData/Access.antt =====
-- Who may take part in a board, when the client keeps its membership (`capture_self_membership_data` and
-- `can_participate` of ui/src/board_data.rs).
use free_talk.Shared.{
  Bool, true, false, ◌||◌, List, [], ◌∷◌, Option, none, some, Result, ok, err, if◌then◌else◌, find,
  any, retain, ◌==◌, nat_eq, list_eq, Bool-cases, inl, inr, arith, ◌≡◌, refl,
}
use free_talk.Model.{
  Crypto, AuthorizedMember, AuthorizedMemberInfo, ChatBoardStateV1, ChatBoardParametersV1, Error,
  member_id_from,
}
use free_talk.Member.Chain.{get_invite_chain}
use free_talk.Member.Downstream.{banned_user}
use free_talk.BoardData.{
  SendMessageError, BoardData, is_some, latest, capture_info, capture_member,
  capture_self_membership_data, can_participate,
}

find_of_any :
    (q : AuthorizedMember → Bool) (xs : List AuthorizedMember)
    → any q xs ≡ true
    → (m : AuthorizedMember) × (find q xs ≡ some m)
find_of_any q [] h = cc
find_of_any q (x ∷ xs) h = elim (Bool-cases (q x)) [
  | inl here ↦ (x, rw here refl)
  | inr later ↦ rw later (find_of_any q xs (ground arith))
]

module _ (c : Crypto) where
  -- The client is a member, or has kept its membership.
  abbrev has_access : BoardData → Bool
  has_access self =
      any (λ m. m.member.member_vk == c.verifying_key self.self_sk) self.board_state.members
      || is_some self.self_authorized_member

  record Keeps (self kept : BoardData) : Type 0 where
    key : kept.self_sk ≡ self.self_sk
    access : is_some kept.self_authorized_member ≡ true

  capture_member-Keeps :
      (p : ChatBoardParametersV1) (self : BoardData)
      → has_access self ≡ true
      → Keeps self (capture_member c p self)
  unfolding capture_member
  capture_member-Keeps p self h = elim (Bool-cases (is_some self.self_authorized_member)) [
    | inl there ↦ rw there (record { key = refl; access = there })
    | inr absent ↦
        let found =
          find_of_any (λ m. m.member.member_vk == c.verifying_key self.self_sk)
            self.board_state.members (ground arith) in
        rw (absent, found.1)
          (with_chain found.0 (get_invite_chain c self.board_state.members found.0 p))
  ]
    where
      with_chain :
          (m : AuthorizedMember) (chain : Result Error (List AuthorizedMember))
          → Keeps self (elim chain [
            | err e ↦ record self { self_authorized_member = some m }
            | ok chain ↦ record self { self_authorized_member = some m; invite_chain = chain }
          ])
      with_chain m (err e) = record { key = refl; access = refl }
      with_chain m (ok chain) = record { key = refl; access = refl }

  capture_info-Keeps :
      (p : ChatBoardParametersV1) (self : BoardData)
      → has_access self ≡ true
      → Keeps self (capture_member c p (capture_info c self))
  unfolding capture_info
  capture_info-Keeps p self h = by_info (
      latest (
        retain (λ i. i.member_info.member_id == member_id_from c (c.verifying_key self.self_sk))
          self.board_state.member_info))
    where
      by_info :
          (o : Option AuthorizedMemberInfo)
          → Keeps self (
              capture_member c p
                (elim o [ none ↦ self | some info ↦ record self { self_member_info = some info } ]))
      by_info none = capture_member-Keeps p self h
      by_info (some info) =
          let k = capture_member-Keeps p (record self { self_member_info = some info }) h in
          record { key = k.key; access = k.access }

  can_participate_of_access :
      (self : BoardData)
      → any
          (λ b. banned_user b == member_id_from c (c.verifying_key self.self_sk))
          self.board_state.bans
        ≡ false
      → is_some self.self_authorized_member ≡ true
      → can_participate c self ≡ ok tt
  unfolding can_participate
  can_participate_of_access self free access =
      rw (can_participate, free, access)
        (either (c.verifying_key self.self_sk == self.owner_vk)
          (any (λ m. m.member.member_vk == c.verifying_key self.self_sk) self.board_state.members))
    where
      either :
          (b b' : Bool)
          → ◌≡◌ {A = Result SendMessageError (Unit {0})}
              (if b then ok tt else if b' then ok tt else ok tt)
              (ok tt)
      either true b' = refl
      either false true = refl
      either false false = refl

  access_of_may :
      (self : BoardData)
      → (c.verifying_key self.self_sk == self.owner_vk) ≡ false
      → can_participate c self ≡ ok tt
      → has_access self ≡ true
  unfolding can_participate
  access_of_may self other may = ground arith

  -- A client that may take part, and then captures its membership, may take part with any later
  -- state of the board in which it is not banned, also where it is no longer among the members.
  pub capture-can_participate :
      (p : ChatBoardParametersV1) (self : BoardData) (later : ChatBoardStateV1)
      → can_participate c self ≡ ok tt
      → any (λ b. banned_user b == member_id_from c (c.verifying_key self.self_sk)) later.bans
        ≡ false
      → can_participate c (record (capture_self_membership_data c p self) { board_state = later })
        ≡ ok tt
  unfolding can_participate capture_self_membership_data
  capture-can_participate p self later may free =
      elim (Bool-cases (c.verifying_key self.self_sk == self.owner_vk)) [
        | inl owns ↦ rw (can_participate, capture_self_membership_data, owns, free, owns) refl
        | inr other ↦
            let kept = capture_info-Keeps p self (access_of_may self other may) in
            rw (capture_self_membership_data, other)
              (can_participate_of_access
                (record (capture_member c p (capture_info c self)) { board_state = later })
                (rw kept.key free) kept.access)
      ]
