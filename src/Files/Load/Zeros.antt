-- ===== src/Files/Load/Zeros.antt =====
-- What is served of a file while it is read, and after.
use sm.Base.{
  ℕ, zero, suc, ◌+◌, ◌<◌, ◌≡◌, refl, ap, Bool, true, some, List, [], ◌∷◌, ◌++◌, arith, length, drop,
  length-append,
}
use sm.Files.Load.{
  FileOp, new_file, zeros, get_file_size, returns, loads, load, async_get_data, finish_load,
}

drop-zeros : (k n m : ℕ) → m ≡ k + n → drop k (zeros m) ≡ zeros n
drop-zeros zero n m e = let e' : m ≡ n = omega arith in rw e' refl
drop-zeros (suc k) n zero e = absurd (omega arith)
drop-zeros (suc k) n (suc m) e = drop-zeros k n m (omega arith)

length-zeros : (n : ℕ) → length (zeros n) ≡ n
length-zeros zero = refl
length-zeros (suc n) = ap suc (length-zeros n)

-- A file that has some bytes is not read again.
pub filled_returns :
    (async_files : Bool) (size datalen : ℕ) (datas : List ℕ)
    → 0 < length datas
    → let f : FileOp = record { datalen = datalen; datas = datas } in
      async_get_data async_files size f ≡ (returns datas, f)
unfolding async_get_data
filled_returns async_files size datalen [] h = absurd (omega arith)
filled_returns async_files size datalen (b ∷ bs) h = refl

-- Where files are read asynchronously: while a file of some size is read for the first time, whoever
-- asks for it gets that many zero bytes; and if the read brings only the first bytes, they and zeros
-- behind them are served, then and to whoever asks from then on, whatever the file's size is then.
pub served_while_read :
    (size size' : ℕ) (bytes : List ℕ) (more : ℕ)
    → size ≡ length bytes + more
    → 0 < size
    → let (first, f) = async_get_data true size new_file in
      let (result, f') = finish_load (some bytes) f in
      (first ≡ loads)
      × (async_get_data true size' f ≡ (returns (zeros size), f))
      × (result ≡ bytes ++ zeros more)
      × (async_get_data true size' f' ≡ (returns (bytes ++ zeros more), f'))
unfolding async_get_data new_file get_file_size load finish_load
served_while_read zero size' bytes more e h = absurd (omega arith)
served_while_read (suc n) size' bytes more e h =
    let rest = drop-zeros (length bytes) more (suc n) e in
    (
      refl,
      refl,
      ap (λ xs. bytes ++ xs) rest,
      rw rest (
          filled_returns true size' (suc n) (bytes ++ zeros more)
            (rw (length-append bytes (zeros more), length-zeros more) (omega arith))),
    )
