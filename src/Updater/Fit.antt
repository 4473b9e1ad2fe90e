-- ===== src/Updater/Fit.antt =====
-- System queues whose requests can all be run, and requests that fit such a queue.
use chronos_xserver.Prelude.{
  ℕ, ◌≤◌, ◌≡◌, sym, subst, ap, Option, some, List, [], ◌∷◌, ◌++◌, map, arith, All, length, take, ℤ,
  pos, pos_part, true,
}
use chronos_xserver.Config.{num_stock_updates_per_update_thread}
use chronos_xserver.Queue.{Queue, Wakeup}
use chronos_xserver.Queue.Valid
use chronos_xserver.Queue.Fifo.{contents}
use chronos_xserver.Queue.Calls.{Keep, Seen, now, later}
use chronos_xserver.Aup.Expired.Schedule.{EntryIn}
use chronos_xserver.Process.{Packet}
use chronos_xserver.Process.Refresh.{IndexOf}
use chronos_xserver.Process.Safe.{IsRefresh}

module _ {Key Order Price : Type 0} where
  -- A queue whose requests can all be run.
  pub record IsFit (elements : ℕ) (q : Queue (Packet Key Order Price)) : Type 0 where
    pub ring : Valid.IsValid q
    pub requests : All (λ info. IsRefresh elements info.request) (contents q)

  -- What other threads do during the wake-ups keeps the queue like that.
  abbrev pub KeepFit : ℕ → List (Wakeup (Packet Key Order Price)) → Type 0
  KeepFit elements [] = Unit
  KeepFit elements (w ∷ ws) =
      ((q : Queue (Packet Key Order Price)) → Valid.IsValid q → Valid.IsValid (w.others q))
      × ((q : Queue (Packet Key Order Price)) → IsFit elements q → IsFit elements (w.others q))
      × KeepFit elements ws

  pub KeepFit-Keep :
      (elements : ℕ) (ws : List (Wakeup (Packet Key Order Price))) → KeepFit elements ws → Keep ws
  KeepFit-Keep elements [] k = tt
  KeepFit-Keep elements (w ∷ ws) (k, _, ks) = (k, KeepFit-Keep elements ws ks)

  pub Seen-IsFit :
      (elements : ℕ) (ws : List (Wakeup (Packet Key Order Price)))
      (q p : Queue (Packet Key Order Price))
      → KeepFit elements ws
      → IsFit elements q
      → Seen ws q p
      → IsFit elements p
  Seen-IsFit elements [] q p k f now = f
  Seen-IsFit elements (w ∷ ws) q p k f now = f
  Seen-IsFit elements (w ∷ ws) q p (_, k, ks) f (later s) =
      Seen-IsFit elements ws (w.others q) p ks (k q f) s

  -- What is relied on of `chronosRequestUpdateFromListCreate`: the request names the first `n`
  -- entries of the list, one item each, and has
  -- its magic number.
  abbrev pub Creates : (ℕ → List ℤ → Option (Packet Key Order Price)) → Type 0
  Creates create =
      (n : ℕ) (list : List ℤ) (p : Packet Key Order Price)
      → n ≤ length list
      → create n list ≡ some p
      → (p.magic_ok ≡ true)
        × (p.num_items ≡ pos n)
        × (n ≤ length p.update_info)
        × (map (λ e. e.0) (take n p.update_info) ≡ take n list)

  pub created-IsRefresh :
      (create : ℕ → List ℤ → Option (Packet Key Order Price)) (elements n : ℕ) (list : List ℤ)
      (p : Packet Key Order Price)
      → Creates create
      → n ≤ length list
      → length list ≡ num_stock_updates_per_update_thread
      → All (IndexOf elements) (take n list)
      → create n list ≡ some p
      → IsRefresh elements p
  created-IsRefresh create elements n list p creates short slots entries e =
      let (magic, items, room, named) = creates n list p short e in
      let count : pos_part p.num_items ≡ n = ap pos_part items in
      record {
        magic = magic;
        small = omega arith;
        enough = omega arith;
        indices =
            subst (λ m. All (IndexOf elements) (map (λ e. e.0) (take m p.update_info))) (sym count)
              (subst (All (IndexOf elements)) (sym named) entries);
      }

pub EntryIn-IndexOf :
    (elements : ℕ) (is : List ℕ)
    → All (EntryIn elements) (map pos is)
    → All (IndexOf elements) (map pos is)
EntryIn-IndexOf elements [] h = tt
EntryIn-IndexOf elements (i ∷ is) (h, hs) = (h, EntryIn-IndexOf elements is hs)

pub All-last :
    {A : Type 0} (P : A → Type 0) (xs : List A) (x : A) → All P xs → P x → All P (xs ++ (x ∷ []))
All-last P [] x h p = (p, tt)
All-last P (y ∷ xs) x (h, hs) p = (h, All-last P xs x hs p)
