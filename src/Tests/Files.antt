-- ===== src/Tests/Files.antt =====
-- Outboards of three blocks in files.
use bao_tree.Base.{ℕ, ◌≡◌, refl, take, drop, List, ◌++◌}
use bao_tree.Word.{to_le_bytes}
use bao_tree.Outcome.{ok}
use bao_tree.Tests.Toy.{
  toy, toy-HasBytes, tree, tree-IsValid, inside, stored, stored_size, file_at, file-Holds,
}
use bao_tree.Outboards.{PostOrderMemOutboard, PreOrderMemOutboard}
use bao_tree.Outboards.Layout.{raise}
use bao_tree.Outboards.Pre
use bao_tree.Outboards.Post
use bao_tree.Io.Files.{load_pre_mem, load_post_mem, load_pre_file, load_post_async}
use bao_tree.Io.FileLaws.{
  Shifted, load-into_inner_with_prefix, load-into_inner_with_suffix, pre_file-load, post_async-load,
  post_file-load,
}

abbrev post : PostOrderMemOutboard ℕ
post = record { root = 9; tree = tree; bytes = stored }

abbrev pre : PreOrderMemOutboard ℕ
pre = record { root = 9; tree = tree; bytes = stored }

abbrev prefixed : List ℕ
prefixed = to_le_bytes 5000 ++ stored

abbrev suffixed : List ℕ
suffixed = stored ++ to_le_bytes 5000

load-into_inner_with_prefix_example :
    load_pre_mem file_at 9 (Pre.into_inner_with_prefix pre) 1 ≡ ok pre
load-into_inner_with_prefix_example =
    load-into_inner_with_prefix file_at (Pre.into_inner_with_prefix pre) pre tree-IsValid
      stored_size (file-Holds (Pre.into_inner_with_prefix pre))

load-into_inner_with_suffix_example :
    load_post_mem file_at 9 (Post.into_inner_with_suffix post) 1 ≡ ok post
load-into_inner_with_suffix_example =
    load-into_inner_with_suffix file_at (Post.into_inner_with_suffix post) post tree-IsValid
      stored_size (file-Holds (Post.into_inner_with_suffix post))

pre_file-load_example :
    load_pre_file toy file_at (record { root = 9; tree = tree; file = prefixed }) (raise tree 1)
    ≡ Pre.load toy pre (raise tree 1)
pre_file-load_example =
    pre_file-load toy toy-HasBytes tree tree-IsValid 9 prefixed stored stored_size 1 inside file_at
      (file-Holds prefixed)

post_async-load_example :
    load_post_async toy
      (λ d offset n. ok (take n (drop offset d)))
      (record { root = 9; tree = tree; file = suffixed })
      (raise tree 1)
    ≡ Post.load toy post (raise tree 1)
post_async-load_example =
    post_async-load toy toy-HasBytes tree tree-IsValid 9 suffixed stored stored_size 1 inside
      (λ d offset n. ok (take n (drop offset d))) (λ offset fits. refl)

post_file-load_example :
    Shifted toy toy-HasBytes tree tree-IsValid 9 suffixed stored stored_size 1 inside file_at
post_file-load_example =
    post_file-load toy toy-HasBytes tree tree-IsValid 9 suffixed stored stored_size 1 inside file_at
      (file-Holds suffixed)
