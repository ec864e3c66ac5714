-- ===== src/PendingFrees/Reads.antt =====
-- What `remove` and `insert` leave in each array, read at one index.
use linuwux_runtime.Base.{ℕ, ◌+◌, ◌%◌, ◌<◌, ◌≡◌, ◌≢◌, refl, arith, ◌==◌, ◌&&◌, if◌then◌else◌}
use linuwux_runtime.PendingFrees.{capacity, bucket_count, no_entry, History, bucket, remove, insert}

module _ (h : History) (x y : ℕ) where
  pub remove_address :
      ((remove h x).entries y).address ≡ (if x == y then 0 else (h.entries y).address)
  unfolding remove
  remove_address = ground arith

  pub remove_next :
      y ≢ x
      → y ≢ no_entry
      → ((remove h x).entries y).next
        ≡ (if (h.entries x).prev == y then (h.entries x).next else (h.entries y).next)
  unfolding remove
  remove_next n m = ground arith

  pub remove_prev :
      y ≢ x
      → y ≢ no_entry
      → ((remove h x).entries y).prev
        ≡ (if (h.entries x).next == y then (h.entries x).prev else (h.entries y).prev)
  unfolding remove
  remove_prev n m = ground arith

  pub remove-bucket : (remove h x).buckets y ≡ (
      if ((h.entries x).prev == no_entry) && (bucket (h.entries x).address == y)
      then (h.entries x).next
      else h.buckets y)
  unfolding remove
  remove-bucket = ground arith

pub remove_next_index : (h : History) (x : ℕ) → (remove h x).next_index ≡ h.next_index
unfolding remove
remove_next_index h x = refl

module _ (h : History) (a y : ℕ) (cursor : h.next_index < capacity)
    (free : h.buckets (bucket a) ≢ h.next_index) where
  pub insert_address :
      ((insert h a).entries y).address ≡ (if h.next_index == y then a else (h.entries y).address)
  unfolding insert
  insert_address = ground arith

  pub insert_next :
      ((insert h a).entries y).next
      ≡ (if h.next_index == y then h.buckets (bucket a) else (h.entries y).next)
  unfolding insert
  insert_next = ground arith

  pub insert_prev :
      y ≢ no_entry
      → ((insert h a).entries y).prev ≡ (
          if h.next_index == y
          then no_entry
          else if h.buckets (bucket a) == y
          then h.next_index
          else (h.entries y).prev)
  unfolding insert
  insert_prev n = ground arith

  pub insert-bucket : (insert h a).buckets y ≡ (if bucket a == y then h.next_index else h.buckets y)
  unfolding insert
  insert-bucket = ground arith

pub insert_next_index :
    (h : History) (a : ℕ) → (insert h a).next_index ≡ (h.next_index + 1) % capacity
unfolding insert
insert_next_index h a = refl

-- The index of a bucket is within the array.
pub bucket-lt : (address : ℕ) → bucket address < bucket_count
unfolding bucket
bucket-lt address = omega arith
