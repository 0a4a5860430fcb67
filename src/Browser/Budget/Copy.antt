-- ===== src/Browser/Budget/Copy.antt =====
-- copyWithBudget of internal/browser/proxy.go: the loop that copies a source to a destination in
-- chunks, each of which is first taken from the budget. The source and the destination are given by
-- what they do in each round.
use hemera.Base.{
  ℕ, ◌+◌, ◌≤◌, ltb, ◌==◌, Option, some, none, if◌then◌else◌, List, [], ◌∷◌, arith, All,
}
use hemera.Browser.Budget.{Failure, Budget, consume, Step}

-- how a read ended: a nil error, io.EOF, or another error
pub data ReadEnd : Type 0 where
  more eof : ReadEnd
  read_error : Failure → ReadEnd

-- the number of bytes that a write took, and its error, if any
pub record Write : Type 0 where
  pub taken : ℕ
  pub error : Option Failure

pub record Round : Type 0 where
  pub count : ℕ
  pub read : ReadEnd
  pub write : Write

pub data CopyEnd : Type 0 where
  copied short_write : CopyEnd
  failed : Failure → CopyEnd
  -- the rounds given do not end the loop
  unfinished : CopyEnd

pub record Copied : Type 0 where
  pub ending : CopyEnd
  pub budget : Budget
  pub written : ℕ

abbrev ended : CopyEnd → Budget → ℕ → Copied
ended e b n = record { ending = e; budget = b; written = n }

-- the end of a round; `rest` is the rest of the loop
abbrev finish : ReadEnd → Budget → Copied → Copied
finish more b rest = rest
finish eof b rest = ended copied b 0
finish (read_error e) b rest = ended (failed e) b 0

abbrev on_write : Option Failure → ℕ → ℕ → Budget → Copied → Copied
on_write (some e) n count b rest = ended (failed e) b n
on_write none n count b rest =
    if n == count then record rest { written = n + rest.written } else ended short_write b n

abbrev charge : Round → Step → (Budget → Copied) → Copied
charge r (some e, b) next = ended (failed e) b 0
charge r (none, b) next = on_write r.write.error r.write.taken r.count b (next b)

-- copyWithBudget
unfoldable pub copy_with_budget : List Round → Budget → Copied
copy_with_budget [] b = ended unfinished b 0
copy_with_budget (r ∷ rs) b =
    if ltb 0 r.count
    then charge r (consume r.count b) (λ b'. finish r.read b' (copy_with_budget rs b'))
    else finish r.read b (copy_with_budget rs b)

-- io.Writer: a write takes no more than it is given.
abbrev pub IsWriter : Round → Type 0
IsWriter r = r.write.taken ≤ r.count

finish-charged :
    (end : ReadEnd) (b : Budget) (rest : Copied)
    → b.transfer_bytes + rest.written ≤ rest.budget.transfer_bytes
    → b.transfer_bytes + (finish end b rest).written ≤ (finish end b rest).budget.transfer_bytes
finish-charged more b rest h = h
finish-charged eof b rest h = omega arith
finish-charged (read_error e) b rest h = omega arith

charge-charged :
    (r : Round) (b : Budget) (next : Budget → Copied)
    → IsWriter r
    → ((c : Budget) → c.transfer_bytes + (next c).written ≤ (next c).budget.transfer_bytes)
    → b.transfer_bytes + (charge r (consume r.count b) next).written
      ≤ (charge r (consume r.count b) next).budget.transfer_bytes
unfolding consume
charge-charged r b next w h =
    ground (arith, h b, h (record b { transfer_bytes = b.transfer_bytes + r.count }))

-- If every write takes no more than it is given, copyWithBudget writes no more bytes than it takes
-- from the transfer budget, however the copy ends.
pub copy_with_budget-charged :
    (rs : List Round) (b : Budget)
    → All IsWriter rs
    → b.transfer_bytes + (copy_with_budget rs b).written
      ≤ (copy_with_budget rs b).budget.transfer_bytes
unfolding copy_with_budget
copy_with_budget-charged [] b w = omega arith
copy_with_budget-charged (r ∷ rs) b (w, ws) =
    let next = λ (c : Budget). finish r.read c (copy_with_budget rs c) in
    let go = λ (c : Budget).
      finish-charged r.read c (copy_with_budget rs c) (copy_with_budget-charged rs c ws) in
    ground (arith, go b, charge-charged r b next w go)
