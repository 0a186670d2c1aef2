-- ===== src/Message/Actions.antt =====
-- common/src/board_state/message.rs: the state that the action messages compute.
use free_talk.Shared.{
  Bool, false, not, ◌||◌, ◌&&◌, List, [], ◌∷◌, ◌++◌, Option, none, some, if◌then◌else◌, is_empty,
  contains, map, retain, ◌==◌, nat_eq, list_eq,
}
use free_talk.Shared.HashMap
use free_talk.Shared.HashMap.{HashMap}
use free_talk.Shared.HashSet
use free_talk.Shared.HashSet.{HashSet}
use free_talk.Model.{
  Crypto, Cbor, Bytes, Text, MemberId, MessageId, BoardMessageBody, DecodedContent, ActionContentV1,
  CategoryEditPayload, AuthorizedMessageV1, MessageActionsState, MessagesV1, message_id,
  action_type_edit, action_type_delete, action_type_reaction, action_type_remove_reaction,
  action_type_edit_category,
}
use free_talk.Message.Body.{
  is_action, is_category, decode_content, edit_payload, reaction_payload, category_edit_payload,
  as_public_string,
}

abbrev pub no_actions : MessageActionsState
no_actions = record { edited_content = []; edited_categories = []; deleted = []; reactions = [] }

abbrev pub or_default : {V : Type 0} → Option (List V) → List V
or_default none = []
or_default (some l) = l

-- `entry(target).or_default()`, `entry(emoji).or_default()`, and `push` unless he is there.
unfoldable pub add_reaction :
    MessageId
    → Text
    → (actor : MemberId) → HashMap MessageId (HashMap Text (List MemberId))
    → HashMap MessageId (HashMap Text (List MemberId))
add_reaction target emoji actor reactions =
    let emojis = or_default (HashMap.get target reactions) in
    let reactors = or_default (HashMap.get emoji emojis) in
    HashMap.insert target
      (HashMap.insert emoji (if contains reactors actor then reactors else reactors ++ actor ∷ [])
        emojis)
      reactions

unfoldable pub remove_reactor :
    Text → (actor : MemberId) → HashMap Text (List MemberId) → HashMap Text (List MemberId)
remove_reactor emoji actor emojis = elim (HashMap.get emoji emojis) [
  | none ↦ emojis
  | some reactors ↦
      let rest = retain (λ r. not (r == actor)) reactors in
      if is_empty rest then HashMap.remove emoji emojis else HashMap.insert emoji rest emojis
]

unfoldable pub remove_reaction :
    MessageId
    → Text
    → (actor : MemberId) → HashMap MessageId (HashMap Text (List MemberId))
    → HashMap MessageId (HashMap Text (List MemberId))
unfolding remove_reactor
remove_reaction target emoji actor reactions = elim (HashMap.get target reactions) [
  | none ↦ reactions
  | some emojis ↦
      let rest = remove_reactor emoji actor emojis in
      if is_empty rest
      then HashMap.remove target reactions
      else HashMap.insert target rest reactions
]

is_some_and : {A : Type 0} → (A → Bool) → Option A → Bool
is_some_and p none = false
is_some_and p (some a) = p a

module _ (b : Cbor) where
  -- What the branches of the `match` on the type of the action read: the authors of the messages
  -- that are no actions, the categories, and who may edit those.
  module _ (message_authors : HashMap MessageId MemberId) (category_ids : HashSet MessageId)
      (owner_id : Option MemberId) (admin_ids : Option (HashSet MemberId)) where
    unfoldable pub is_author : (target : MessageId) (actor : MemberId) → Bool
    unfolding is_some_and
    is_author target actor = is_some_and (λ a. actor == a) (HashMap.get target message_authors)

    unfoldable pub act_edit :
        (actor : MemberId) → ActionContentV1 → MessageActionsState → MessageActionsState
    act_edit actor action s = elim (edit_payload b action) [
      | none ↦ s
      | some payload ↦
          if not (contains category_ids action.target)
            && is_author action.target actor
            && not (contains s.deleted action.target)
          then record {
            edited_content = HashMap.insert action.target payload.new_text s.edited_content;
            edited_categories = s.edited_categories;
            deleted = s.deleted;
            reactions = s.reactions;
          }
          else s
    ]

    unfoldable pub act_delete :
        (actor : MemberId) → ActionContentV1 → MessageActionsState → MessageActionsState
    act_delete actor action s =
        if is_author action.target actor
        then record {
          edited_content = HashMap.remove action.target s.edited_content;
          edited_categories = HashMap.remove action.target s.edited_categories;
          deleted = HashSet.insert action.target s.deleted;
          reactions = s.reactions;
        }
        else s

    unfoldable pub act_reaction :
        (actor : MemberId) → ActionContentV1 → MessageActionsState → MessageActionsState
    act_reaction actor action s = elim (reaction_payload b action) [
      | none ↦ s
      | some payload ↦
          if HashMap.contains_key action.target message_authors
            && not (contains s.deleted action.target)
          then record {
            edited_content = s.edited_content;
            edited_categories = s.edited_categories;
            deleted = s.deleted;
            reactions = add_reaction action.target payload.emoji actor s.reactions;
          }
          else s
    ]

    unfoldable pub act_remove_reaction :
        (actor : MemberId) → ActionContentV1 → MessageActionsState → MessageActionsState
    act_remove_reaction actor action s = elim (reaction_payload b action) [
      | none ↦ s
      | some payload ↦ record {
        edited_content = s.edited_content;
        edited_categories = s.edited_categories;
        deleted = s.deleted;
        reactions = remove_reaction action.target payload.emoji actor s.reactions;
      }
    ]

    unfoldable pub may_edit_category : (target : MessageId) (actor : MemberId) → Bool
    unfolding is_some_and
    may_edit_category target actor =
        is_some_and (λ id. actor == id) owner_id
        || is_some_and (λ ids. contains ids actor) admin_ids
        || is_author target actor

    unfoldable pub act_edit_category :
        (actor : MemberId) → ActionContentV1 → MessageActionsState → MessageActionsState
    act_edit_category actor action s = elim (category_edit_payload b action) [
      | none ↦ s
      | some payload ↦
          if contains category_ids action.target
            && may_edit_category action.target actor
            && not (contains s.deleted action.target)
          then record {
            edited_content = s.edited_content;
            edited_categories = HashMap.insert action.target payload s.edited_categories;
            deleted = s.deleted;
            reactions = s.reactions;
          }
          else s
    ]

    -- The `match` on the type of the action.
    unfoldable pub act :
        (actor : MemberId) → ActionContentV1 → MessageActionsState → MessageActionsState
    act actor action s =
        if action.action_type == action_type_edit
        then act_edit actor action s
        else if action.action_type == action_type_delete
        then act_delete actor action s
        else if action.action_type == action_type_reaction
        then act_reaction actor action s
        else if action.action_type == action_type_remove_reaction
        then act_remove_reaction actor action s
        else if action.action_type == action_type_edit_category
        then act_edit_category actor action s
        else s

  decoded_action : Option DecodedContent → Option ActionContentV1
  decoded_action none = none
  decoded_action (some (DecodedContent.text t)) = none
  decoded_action (some (DecodedContent.action a)) = some a
  decoded_action (some (DecodedContent.reply r)) = none
  decoded_action (some (DecodedContent.category k)) = none
  decoded_action (some (DecodedContent.unknown t v)) = none

  plain_action : Option Bytes → Option ActionContentV1
  plain_action none = none
  plain_action (some plaintext) = b.decode_action plaintext

  action_in : BoardMessageBody → Option Bytes → Option ActionContentV1
  unfolding decoded_action plain_action decode_content
  action_in (BoardMessageBody.public t v d) plaintext =
      decoded_action (decode_content b (BoardMessageBody.public t v d))
  action_in (BoardMessageBody.private t v d n s) plaintext = plain_action plaintext

  module _ (c : Crypto) where
    -- The action that a message holds; `none` for the `continue`s.
    unfoldable pub action_of :
        (decrypted_content : HashMap MessageId Bytes) → AuthorizedMessageV1 → Option ActionContentV1
    unfolding action_in is_action
    action_of decrypted_content m =
        if is_action m.message.content
        then action_in m.message.content (HashMap.get (message_id c m) decrypted_content)
        else none

    abbrev pub message_authors : List AuthorizedMessageV1 → HashMap MessageId MemberId
    message_authors messages = HashMap.extend [] (
        map (λ (m : AuthorizedMessageV1). (message_id c m, m.message.author))
          (retain (λ m. not (is_action m.message.content)) messages))

    abbrev pub category_ids : List AuthorizedMessageV1 → HashSet MessageId
    category_ids messages =
        HashSet.collect (map (message_id c) (retain (λ m. is_category m.message.content) messages))

    -- The loop over the messages.
    unfoldable pub act_all :
        HashMap MessageId MemberId
        → HashSet MessageId
        → (decrypted_content : HashMap MessageId Bytes) → Option MemberId
        → Option (HashSet MemberId)
        → List AuthorizedMessageV1
        → MessageActionsState
        → MessageActionsState
    unfolding act action_of
    act_all authors categories decrypted_content owner_id admin_ids [] s = s
    act_all authors categories decrypted_content owner_id admin_ids (m ∷ messages) s =
        elim (action_of decrypted_content m) [
          | none ↦ act_all authors categories decrypted_content owner_id admin_ids messages s
          | some action ↦
              act_all authors categories decrypted_content owner_id admin_ids messages
                (act authors categories owner_id admin_ids m.message.author action s)
        ]

    unfoldable pub rebuild_actions_state_with_permissions :
        MessagesV1
        → (decrypted_content : HashMap MessageId Bytes) → Option MemberId
        → Option (HashSet MemberId)
        → MessagesV1
    unfolding act_all
    rebuild_actions_state_with_permissions self decrypted_content owner_id admin_ids = record {
      messages = self.messages;
      actions_state =
          act_all (message_authors self.messages) (category_ids self.messages) decrypted_content
            owner_id admin_ids self.messages no_actions;
    }

    unfoldable pub rebuild_actions_state_with_decrypted :
        MessagesV1 → (decrypted_content : HashMap MessageId Bytes) → MessagesV1
    unfolding rebuild_actions_state_with_permissions
    rebuild_actions_state_with_decrypted self decrypted_content =
        rebuild_actions_state_with_permissions self decrypted_content none none

    unfoldable pub rebuild_actions_state : MessagesV1 → MessagesV1
    unfolding rebuild_actions_state_with_permissions
    rebuild_actions_state self = rebuild_actions_state_with_permissions self [] none none

    or_else_text : Option Text → Option Text → Option Text
    or_else_text none original = original
    or_else_text (some edited) original = some edited

    unfoldable pub effective_text : MessagesV1 → AuthorizedMessageV1 → Option Text
    unfolding or_else_text as_public_string
    effective_text self m =
        or_else_text (HashMap.get (message_id c m) self.actions_state.edited_content)
          (as_public_string b m.message.content)

    unfoldable pub display_messages : MessagesV1 → List AuthorizedMessageV1
    unfolding is_action
    display_messages self =
        retain
          (λ m.
            not (is_action m.message.content)
            && not (contains self.actions_state.deleted (message_id c m)))
          self.messages

unfoldable pub is_edited : MessagesV1 → MessageId → Bool
is_edited self id = HashMap.contains_key id self.actions_state.edited_content

unfoldable pub is_category_edited : MessagesV1 → MessageId → Bool
is_category_edited self id = HashMap.contains_key id self.actions_state.edited_categories

unfoldable pub edited_category : MessagesV1 → MessageId → Option CategoryEditPayload
edited_category self id = HashMap.get id self.actions_state.edited_categories

unfoldable pub is_deleted : MessagesV1 → MessageId → Bool
is_deleted self id = contains self.actions_state.deleted id

unfoldable pub reactions_to : MessagesV1 → MessageId → Option (HashMap Text (List MemberId))
reactions_to self id = HashMap.get id self.actions_state.reactions
