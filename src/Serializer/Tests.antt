-- ===== src/Serializer/Tests.antt =====
-- Runs of the serializers on small data.
use str_mod.Base.{ℕ, ◌≡◌, refl, true, false, none, some, List, [], ◌∷◌, take, arith}
use str_mod.Serializer.{
  OutSerializer, chain, new_serializer, resume, empty_state, take_chunk, add_raw, get_string,
}
use str_mod.Serializer.Read.{
  Item, u1_item, u2_item, string_item, string_kind, get_item, encoded, reading,
}
use str_mod.Serializer.Trip.{
  add_items, get_items, kinds, all_encoded, get_items-add_items, resume_faults, get_item_truncated,
}

abbrev message : List Item
message = u2_item 513 ∷ string_item (104 ∷ 105 ∷ []) ∷ u1_item 7 ∷ []

-- The bytes of a message, and an empty string, which needs no fourth byte.
layout :
    (all_encoded message ≡ 1 ∷ 2 ∷ 3 ∷ 0 ∷ 104 ∷ 105 ∷ 0 ∷ 7 ∷ [])
    × ((get_string (reading (1 ∷ 0 ∷ 0 ∷ []))).1.had_error ≡ false)
    × ((get_string (reading (0 ∷ 0 ∷ 0 ∷ []))).1.had_error ≡ true)
unfolding get_string
layout = (refl, refl, refl)

get_items-add_items_example :
    (s : OutSerializer) × (bs : List ℕ) × (t : OutSerializer) × (add_items 0 message
        (new_serializer 0 2)
      ≡ some s)
    × (take_chunk 0 s ≡ some (bs, t))
    × (get_items 9 (kinds message) (reading bs) ≡ (message, reading []))
get_items-add_items_example =
    get_items-add_items 0 9 2 message (omega arith, (omega arith, (omega arith, tt))) (omega arith)

get_item_truncated_example :
    (get_item 9 string_kind (reading (take 4 (encoded (string_item (104 ∷ 105 ∷ [])))))).1.had_error
    ≡ true
get_item_truncated_example =
    get_item_truncated 9 (string_item (104 ∷ 105 ∷ [])) 4 (omega arith) (omega arith)

resume_faults_example : chain (resume (0 ∷ 0 ∷ []) empty_state) (add_raw 0 (5 ∷ [])) ≡ none
resume_faults_example = resume_faults 0 (0 ∷ 0 ∷ []) (5 ∷ []) (omega arith) (omega arith)
