-- ===== src/Model/Records.antt =====
-- The records of member.rs, admin.rs, ban.rs, member_info.rs and upgrade.rs under
-- common/src/board_state.
use free_talk.Shared.{
  ℕ, Bool, true, ◌&&◌, ◌≡◌, ◌↔◌, PartialEq, ◌==◌, nat_eq, list_eq, list_beq_iff, arith,
}
use free_talk.Model.Privacy.{MemberId, VerifyingKey, Signature, SystemTime, SealedBytes, Bytes}

pub record Member : Type 0 where
  pub owner_member_id : MemberId
  pub invited_by : MemberId
  pub member_vk : VerifyingKey

pub record AuthorizedMember : Type 0 where
  pub member : Member
  pub signature : Signature

-- `PartialEq`, which is derived
unfoldable pub member_beq : AuthorizedMember → AuthorizedMember → Bool
member_beq a b =
    a.member.owner_member_id == b.member.owner_member_id
    && a.member.invited_by == b.member.invited_by
    && a.member.member_vk == b.member.member_vk
    && a.signature == b.signature

pub member_beq_iff : (a b : AuthorizedMember) → (member_beq a b ≡ true) ↔ (a ≡ b)
unfolding member_beq
member_beq_iff a b = ground (
  arith,
  list_beq_iff a.member.member_vk b.member.member_vk,
  list_beq_iff a.signature b.signature,
)

instance abbrev pub member_eq : PartialEq AuthorizedMember
unfolding member_beq
member_eq = record { is_eq = member_beq; is_eq_iff = member_beq_iff }

pub record Admin : Type 0 where
  pub member_id : MemberId

pub record AuthorizedAdmin : Type 0 where
  pub admin : Admin
  pub signature : Signature

pub record UserBan : Type 0 where
  pub owner_member_id : MemberId
  pub banned_at : SystemTime
  pub banned_user : MemberId

pub record AuthorizedUserBan : Type 0 where
  pub ban : UserBan
  pub banned_by : MemberId
  pub signature : Signature

pub record MemberInfo : Type 0 where
  pub member_id : MemberId
  pub version : ℕ
  pub preferred_nickname : SealedBytes

pub record AuthorizedMemberInfo : Type 0 where
  pub member_info : MemberInfo
  pub signature : Signature

pub record UpgradeV1 : Type 0 where
  pub owner_member_id : MemberId
  pub version : ℕ
  pub new_chatboard_address : Bytes

pub record AuthorizedUpgradeV1 : Type 0 where
  pub upgrade : UpgradeV1
  pub signature : Signature
