-- ===== src/Tests/Stored.antt =====
-- Saving and flipping on outboards of three blocks.
use bao_tree.Base.{ℕ, ◌≢◌, arith}
use bao_tree.Tests.Toy.{
  toy, toy-HasBytes, tree, tree-IsValid, inside, last_inside, stored, stored_size,
}
use bao_tree.Outboards.{PostOrderMemOutboard, PreOrderMemOutboard}
use bao_tree.Outboards.Saving.{SavedPost, post_save-load}
use bao_tree.Outboards.Flipping.{
  FlippedPost, FlippedPre, FlippedTwice, post_flip-load, pre_flip-load, flip-flip,
}

abbrev post : PostOrderMemOutboard ℕ
post = record { root = 9; tree = tree; bytes = stored }

abbrev pre : PreOrderMemOutboard ℕ
pre = record { root = 9; tree = tree; bytes = stored }

one_two : ◌≢◌ {A = ℕ} 1 2
one_two = omega arith

post_save-load_example : SavedPost toy toy-HasBytes post 1 2 (3, 4)
post_save-load_example =
    post_save-load toy toy-HasBytes post 1 2 (3, 4) tree-IsValid stored_size inside last_inside
      one_two

post_flip-load_example : FlippedPost toy toy-HasBytes post 1
post_flip-load_example = post_flip-load toy toy-HasBytes post 1 tree-IsValid stored_size inside

pre_flip-load_example : FlippedPre toy toy-HasBytes pre 1
pre_flip-load_example = pre_flip-load toy toy-HasBytes pre 1 tree-IsValid stored_size inside

flip-flip_example : FlippedTwice toy toy-HasBytes post 1
flip-flip_example = flip-flip toy toy-HasBytes post 1 tree-IsValid stored_size inside
