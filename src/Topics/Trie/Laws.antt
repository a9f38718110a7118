-- ===== src/Topics/Trie/Laws.antt =====
-- The map of a node: what each operation does at its key and past another key.
use thoth.Base.{◌≡◌, ◌≢◌, refl, arith, none, some, ite, Bytes, Bytes-discrete}
use thoth.Topics.Trie.{Node, Nodes, nil, cons, find, put, delete}

module _ {ℓ} {A : Type ℓ} where
  pub find_hit : {k l : Bytes} (n : Node A) (ks : Nodes A) → k ≡ l → find l (cons k n ks) ≡ some n
  unfolding find
  find_hit n ks h = ground arith

  pub find_miss :
      {k l : Bytes} (n : Node A) (ks : Nodes A) → k ≢ l → find l (cons k n ks) ≡ find l ks
  unfolding find
  find_miss n ks h = ground arith

  pub found_hit :
      {k l : Bytes} {m n : Node A} (ks : Nodes A) → find l (cons k n ks) ≡ some m → k ≡ l → m ≡ n
  unfolding find
  found_hit ks f h = ground arith

  pub put_hit :
      {k l : Bytes} (m n : Node A) (ks : Nodes A) → k ≡ l → put l m (cons k n ks) ≡ cons k m ks
  unfolding put
  put_hit m n ks h = ground arith

  pub put_miss :
      {k l : Bytes} (m n : Node A) (ks : Nodes A)
      → k ≢ l
      → put l m (cons k n ks) ≡ cons k n (put l m ks)
  unfolding put
  put_miss m n ks h = ground arith

  pub delete_hit : {k l : Bytes} (n : Node A) (ks : Nodes A) → k ≡ l → delete l (cons k n ks) ≡ ks
  unfolding delete
  delete_hit n ks h = ground arith

  pub delete_miss :
      {k l : Bytes} (n : Node A) (ks : Nodes A)
      → k ≢ l
      → delete l (cons k n ks) ≡ cons k n (delete l ks)
  unfolding delete
  delete_miss n ks h = ground arith

  pub find-put :
      (l k : Bytes) (n : Node A) (ks : Nodes A)
      → find k (put l n ks) ≡ ite (Bytes-discrete l k) (some n) (find k ks)
  unfolding find put
  find-put l k n nil = ground arith
  find-put l k n (cons j m ks) = ground (arith, find-put l k n ks)

  -- Writing back what a key holds changes nothing.
  pub put-find : (l : Bytes) (n : Node A) (ks : Nodes A) → find l ks ≡ some n → put l n ks ≡ ks
  unfolding find put
  put-find l n nil f = cc
  put-find l n (cons k o ks) f = ground (arith, put-find l n ks)

  -- A new key is deleted again, and the map is as before.
  pub delete-put_new :
      (l : Bytes) (n : Node A) (ks : Nodes A) → find l ks ≡ none → delete l (put l n ks) ≡ ks
  unfolding find put delete
  delete-put_new l n nil f = ground arith
  delete-put_new l n (cons k o ks) f = ground (arith, delete-put_new l n ks)

  -- A key that is there is written over in its place.
  pub put-put : (l : Bytes) (m n : Node A) (ks : Nodes A) → put l m (put l n ks) ≡ put l m ks
  unfolding put
  put-put l m n nil = ground arith
  put-put l m n (cons k o ks) = ground (arith, put-put l m n ks)

  pub find-put_ne :
      {l k : Bytes} (n : Node A) (ks : Nodes A) → l ≢ k → find k (put l n ks) ≡ find k ks
  find-put_ne {l} {k} n ks h = ground (arith, find-put l k n ks)

  pub find-put_self : (l : Bytes) (n : Node A) (ks : Nodes A) → find l (put l n ks) ≡ some n
  find-put_self l n ks = ground (arith, find-put l l n ks)

  -- Deleting brings no key in.
  pub find-delete-none :
      (l k : Bytes) (ks : Nodes A) → find k ks ≡ none → find k (delete l ks) ≡ none
  unfolding find delete
  find-delete-none l k nil h = refl
  find-delete-none l k (cons j n ks) h = ground (arith, find-delete-none l k ks)

  -- A key that stands once is gone after its deletion, and no other key is touched.
  pub find-delete_ne : {l k : Bytes} (ks : Nodes A) → l ≢ k → find k (delete l ks) ≡ find k ks
  unfolding find delete
  find-delete_ne nil h = refl
  find-delete_ne {l} {k} (cons j n ks) h = ground (arith, find-delete_ne {l = l} {k = k} ks)
