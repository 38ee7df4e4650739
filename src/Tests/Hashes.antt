-- ===== src/Tests/Hashes.antt =====
-- `encode_selected_rec` on three chunks, with a toy hash and sets that hold all or nothing.
use bao_tree.Base.{length-replicate, ℕ, ◌≡◌, arith, true, List, length, replicate}
use bao_tree.Tests.Toy.{toy, all_or_nothing}
use bao_tree.Hashing.Encoding.{Encodes, encode_selected_rec_lem}

content : List ℕ
content = replicate 2500 7

length-content : length content ≡ 2500
unfolding content
length-content = length-replicate {A = ℕ} 2500 7

encode_selected_rec_lem_example : Encodes all_or_nothing toy 3000 0 content true true 0 true
encode_selected_rec_lem_example =
    encode_selected_rec_lem all_or_nothing toy (λ h. length-replicate 32 h) 3000 0 content true true
      0 true (omega (arith, length-content)) (omega (arith, length-content))
