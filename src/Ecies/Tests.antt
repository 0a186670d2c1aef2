-- ===== src/Ecies/Tests.antt =====
-- Examples for ui/src/util/ecies.rs.
use free_talk.Shared.{[], ◌∷◌, none, some, ok, err, nat_eq, ◌≡◌}
use free_talk.Shared.HashMap
use free_talk.Shared.HashMap.{HashMap}
use free_talk.Model.{Bytes, SecretVersion}
use free_talk.Examples.{toy}
use free_talk.Ecies.{version_not_available, seal_bytes, unseal_bytes_with_secrets}
use free_talk.Ecies.Opens.{unseal_bytes_with_secrets_lem}
use free_talk.Ecies.Toy.{plain, plain-AreCiphers}

abbrev key : Bytes
key =
    1 ∷ 2 ∷ 3 ∷ 4 ∷ 5 ∷ 6 ∷ 7 ∷ 8 ∷ 1 ∷ 2 ∷ 3 ∷ 4 ∷ 5 ∷ 6 ∷ 7 ∷ 8 ∷ 1 ∷ 2 ∷ 3 ∷ 4 ∷ 5 ∷ 6 ∷ 7 ∷ 8
    ∷ 1 ∷ 2 ∷ 3 ∷ 4 ∷ 5 ∷ 6 ∷ 7 ∷ 8 ∷ []

abbrev known : HashMap SecretVersion Bytes
known = (1, 4 ∷ []) ∷ (2, key) ∷ []

unseal_bytes_with_secrets_lem_example :
    (HashMap.get 2 known ≡ some key
      → unseal_bytes_with_secrets plain (seal_bytes plain (7 ∷ []) (8 ∷ []) key 2) known
        ≡ ok (8 ∷ []))
    × (HashMap.get 2 known ≡ none
        → unseal_bytes_with_secrets plain (seal_bytes plain (7 ∷ []) (8 ∷ []) key 2) known
          ≡ err (version_not_available 2))
unseal_bytes_with_secrets_lem_example =
    unseal_bytes_with_secrets_lem toy plain plain-AreCiphers (7 ∷ []) (8 ∷ []) key 2 known
