-- ===== src/MemberInfo.antt =====
-- common/src/board_state/member_info.rs.
use free_talk.Shared.{
  ℕ, Bool, true, false, not, ◌||◌, List, [], ◌∷◌, Option, none, some, Result, ok, err, ◌>>=◌, ◌>>◌,
  ensure, reject, for_each, if◌then◌else◌, is_empty, contains, map, retain, ltb, ◌==◌, nat_eq,
}
use free_talk.Shared.HashMap
use free_talk.Shared.HashMap.{HashMap}
use free_talk.Shared.Order.{sort_by_key}
use free_talk.Model.{
  Crypto, Signable, VerifyingKey, SigningKey, MemberId, MemberInfo, AuthorizedMemberInfo,
  AuthorizedMember, ChatBoardStateV1, ChatBoardParametersV1, SealedBytes, Text, Bytes,
  SecretVersion, Error, invalid_signature, info_of_nonmember, nickname_too_long, declared_len,
  sign_struct, verify_struct,
}
use free_talk.Member.Chain.{owner_id, members_by_member_id}
pub mod Newest
pub mod Keeps
mod Tests

abbrev pub info_id : AuthorizedMemberInfo → MemberId
info_id i = i.member_info.member_id

abbrev pub info_version : AuthorizedMemberInfo → ℕ
info_version i = i.member_info.version

-- `MemberInfo::new_public`
unfoldable pub new_public : MemberId → ℕ → Text → MemberInfo
new_public member_id version nickname = record {
  member_id = member_id;
  version = version;
  preferred_nickname = SealedBytes.public nickname;
}

-- `MemberInfo::new_private`
unfoldable pub new_private :
    MemberId → ℕ → (ciphertext nonce : Bytes) → SecretVersion → (declared_len : ℕ) → MemberInfo
new_private member_id version ciphertext nonce secret_version declared_len = record {
  member_id = member_id;
  version = version;
  preferred_nickname = SealedBytes.private ciphertext nonce secret_version declared_len;
}

-- `iter_mut().find` with the replacement by a newer version, or `push`.
unfoldable pub upsert : AuthorizedMemberInfo → List AuthorizedMemberInfo → List AuthorizedMemberInfo
upsert i [] = i ∷ []
upsert i (j ∷ infos) =
    let rest = upsert i infos in
    if info_id j == info_id i
    then (if ltb (info_version j) (info_version i) then i else j) ∷ infos
    else j ∷ rest

unfoldable pub summarize : List AuthorizedMemberInfo → HashMap MemberId ℕ
summarize self = HashMap.extend [] (map (λ i. (info_id i, info_version i)) self)

newer_than : Option ℕ → ℕ → Bool
newer_than none v = true
newer_than (some old) v = ltb old v

unfoldable pub delta :
    List AuthorizedMemberInfo → HashMap MemberId ℕ → Option (List AuthorizedMemberInfo)
unfolding newer_than
delta self old_state_summary =
    let delta =
      retain (λ i. newer_than (HashMap.get (info_id i) old_state_summary) (info_version i)) self in
    if is_empty delta then none else some delta

abbrev pub entries : Option (List AuthorizedMemberInfo) → List AuthorizedMemberInfo
entries none = []
entries (some delta) = delta

module _ (c : Crypto) where
  -- `AuthorizedMemberInfo::new` and `new_with_member_key`
  unfoldable pub new : MemberInfo → SigningKey → AuthorizedMemberInfo
  unfolding sign_struct
  new info signing_key = record {
    member_info = info;
    signature = sign_struct c (Signable.member_info info) signing_key;
  }

  unfoldable pub verify_signature_with_key : AuthorizedMemberInfo → VerifyingKey → Bool
  unfolding verify_struct
  verify_signature_with_key i key =
      verify_struct c (Signable.member_info i.member_info) i.signature key

  -- The body of the loop of `verify`.
  unfoldable pub check_info :
      HashMap MemberId AuthorizedMember
      → ChatBoardParametersV1
      → AuthorizedMemberInfo
      → Result Error (Unit {0})
  check_info members_by_id parameters i =
      if info_id i == owner_id c parameters
      then ensure (verify_signature_with_key i parameters.owner) invalid_signature
      else elim (HashMap.get (info_id i) members_by_id) [
        | none ↦ err (info_of_nonmember (info_id i))
        | some m ↦ ensure (verify_signature_with_key i m.member.member_vk) invalid_signature
      ]

  unfoldable pub verify :
      List AuthorizedMemberInfo → ChatBoardStateV1 → ChatBoardParametersV1 → Result Error (Unit {0})
  unfolding check_info
  verify self parent_state parameters =
      for_each (check_info (members_by_member_id c parent_state.members) parameters) self

  -- The checks of the loop of `apply_delta`, and whether the entry is taken: `continue` is `false`.
  unfoldable pub admits :
      ChatBoardStateV1 → ChatBoardParametersV1 → AuthorizedMemberInfo → Result Error Bool
  admits parent_state parameters i =
      let max = parent_state.configuration.configuration.max_nickname_size in
      reject (ltb max (declared_len i.member_info.preferred_nickname))
        (nickname_too_long (declared_len i.member_info.preferred_nickname) max)
      >> (if info_id i == owner_id c parameters
          then ensure (verify_signature_with_key i parameters.owner) invalid_signature >> ok true
          else elim (HashMap.get (info_id i) (members_by_member_id c parent_state.members)) [
            | none ↦ ok false
            | some m ↦
                ensure (verify_signature_with_key i m.member.member_vk) invalid_signature >> ok true
          ])

  -- The loop of `apply_delta`; it stops at the first error, with the entries before it taken.
  unfoldable pub take_all :
      ChatBoardStateV1
      → ChatBoardParametersV1
      → List AuthorizedMemberInfo
      → List AuthorizedMemberInfo
      → List AuthorizedMemberInfo × Result Error (Unit {0})
  unfolding admits upsert
  take_all parent_state parameters self [] = (self, ok tt)
  take_all parent_state parameters self (i ∷ delta) = elim (admits parent_state parameters i) [
    | err e ↦ (self, err e)
    | ok true ↦ take_all parent_state parameters (upsert i self) delta
    | ok false ↦ take_all parent_state parameters self delta
  ]

  -- The retention and the sorting at the end of `apply_delta`.
  unfoldable pub retained :
      ChatBoardStateV1
      → ChatBoardParametersV1
      → List AuthorizedMemberInfo
      → List AuthorizedMemberInfo
  retained parent_state parameters self = sort_by_key info_id (
      retain
        (λ i.
          owner_id c parameters == info_id i
          || HashMap.contains_key (info_id i) (members_by_member_id c parent_state.members))
        self)

  -- The state after the call, an error included, and what it returns.
  unfoldable pub apply_delta :
      List AuthorizedMemberInfo
      → ChatBoardStateV1
      → ChatBoardParametersV1
      → Option (List AuthorizedMemberInfo)
      → List AuthorizedMemberInfo × Result Error (Unit {0})
  unfolding take_all retained
  apply_delta self parent_state parameters delta =
      let taken = take_all parent_state parameters self (entries delta) in
      elim (taken.1) [
        | err e ↦ (taken.0, err e)
        | ok u ↦ (retained parent_state parameters taken.0, ok tt)
      ]
