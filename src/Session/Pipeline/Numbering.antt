-- ===== src/Session/Pipeline/Numbering.antt =====
-- Calls that are added at the end, and those that are taken from the front.
use objectlink_core_cpp.Prelude.{
  ℕ, suc, ◌+◌, ◌≤◌, ◌≡◌, refl, ap, subst, List, [], ◌∷◌, ◌++◌, Option, some, Str, length, arith,
}
use objectlink_core_cpp.Map.{nat_key, find, insert, erase}
use objectlink_core_cpp.Json.{JsonLib}
use objectlink_core_cpp.Converter.{MessageConverter}
use objectlink_core_cpp.RemoteNode.{RemoteWorld}
use objectlink_core_cpp.Session.Pipeline.{Call}
use objectlink_core_cpp.Session.Pipeline.Serial.{
  Service, mark, written, request, reply, serial, value, request_texts, reply_texts, pending,
  Travels, AllTravel,
}

module _ (J : JsonLib) (S : Service J) (conv : MessageConverter) where
  pub request_texts-snoc :
      (n m : ℕ) (cs : List (Call J)) (c : Call J)
      → m ≡ n + length cs
      → request_texts J S conv n (cs ++ c ∷ [])
        ≡ request_texts J S conv n cs ++ written J S conv (request J S conv m c) ∷ []
  request_texts-snoc n m [] c e =
      ap (λ k. written J S conv (request J S conv k c) ∷ []) (omega arith)
  request_texts-snoc n m (b ∷ cs) c e =
      ap (λ l. written J S conv (request J S conv n b) ∷ l)
        (request_texts-snoc (n + 1) m cs c (omega arith))

  pub length-request_texts :
      (n : ℕ) (cs : List (Call J)) → length (request_texts J S conv n cs) ≡ length cs
  length-request_texts n [] = refl
  length-request_texts n (c ∷ cs) = ap suc (length-request_texts (n + 1) cs)

  pub length-reply_texts :
      (n : ℕ) (h : List (ℕ × Str)) (cs : List (Call J))
      → length (reply_texts J S conv n h cs) ≡ length cs
  length-reply_texts n h [] = refl
  length-reply_texts n h (c ∷ cs) =
      ap suc (length-reply_texts (n + 1) (h ++ mark J S conv c ∷ []) cs)

  -- The history after calls.
  abbrev pub history : List (ℕ × Str) → List (Call J) → List (ℕ × Str)
  history h [] = h
  history h (c ∷ cs) = history (h ++ mark J S conv c ∷ []) cs

  pub history-append :
      (h : List (ℕ × Str)) (xs ys : List (Call J))
      → history h (xs ++ ys) ≡ history (history h xs) ys
  history-append h [] ys = refl
  history-append h (x ∷ xs) ys = history-append (h ++ mark J S conv x ∷ []) xs ys

  pub reply_texts-snoc :
      (n m : ℕ) (h : List (ℕ × Str)) (cs : List (Call J)) (c : Call J)
      → m ≡ n + length cs
      → reply_texts J S conv n h (cs ++ c ∷ [])
        ≡ reply_texts J S conv n h cs ++ written J S conv (reply J S conv m (history h cs) c) ∷ []
  reply_texts-snoc n m h [] c e =
      ap (λ k. written J S conv (reply J S conv k h c) ∷ []) (omega arith)
  reply_texts-snoc n m h (b ∷ cs) c e =
      ap (λ l. written J S conv (reply J S conv n h b) ∷ l)
        (reply_texts-snoc (n + 1) m (h ++ mark J S conv b ∷ []) cs c (omega arith))

  pub serial-snoc :
      (h : List (ℕ × Str)) (cs : List (Call J)) (c : Call J)
      → serial J S conv h (cs ++ c ∷ [])
        ≡ serial J S conv h cs ++ (c.func, S.told c.method (value J S conv (history h cs) c)) ∷ []
  serial-snoc h [] c = refl
  serial-snoc h (b ∷ cs) c =
      ap (λ l. (b.func, S.told b.method (value J S conv h b)) ∷ l)
        (serial-snoc (h ++ mark J S conv b ∷ []) cs c)

  pub insert-pending :
      (n m : ℕ) (cs : List (Call J)) (c : Call J)
      → m ≡ n + length cs
      → insert (m + 1) (some c.func) (pending J S conv n cs) ≡ pending J S conv n (cs ++ c ∷ [])
  unfolding insert
  insert-pending n m [] c e = ap (λ k. (k + 1, some c.func) ∷ []) (omega arith)
  insert-pending n m (b ∷ cs) c e = ground (arith, insert-pending (n + 1) m cs c)

  pub find-pending :
      (n id : ℕ) (cs : List (Call J)) (f : Option ℕ)
      → find id (pending J S conv n cs) ≡ some f
      → id ≤ n + length cs
  unfolding find
  find-pending n id [] f e = absurd cc
  find-pending n id (b ∷ cs) f e = ground (arith, find-pending (n + 1) id cs f)

  pub find-pending_first :
      (n : ℕ) (c : Call J) (cs : List (Call J))
      → find (n + 1) (pending J S conv n (c ∷ cs)) ≡ some (some c.func)
  unfolding find
  find-pending_first n c cs = ground arith

  erase-below :
      (n id : ℕ) (cs : List (Call J))
      → id ≤ n
      → erase id (pending J S conv n cs) ≡ pending J S conv n cs
  unfolding erase
  erase-below n id [] h = refl
  erase-below n id (b ∷ cs) h = ground (arith, erase-below (n + 1) id cs)

  pub erase-pending_first :
      (n : ℕ) (c : Call J) (cs : List (Call J))
      → erase (n + 1) (pending J S conv n (c ∷ cs)) ≡ pending J S conv (n + 1) cs
  unfolding erase
  erase-pending_first n c cs = ground (arith, erase-below (n + 1) (n + 1) cs)

  pub AllTravel-prefix :
      (r : RemoteWorld) (n : ℕ) (h : List (ℕ × Str)) (xs ys : List (Call J))
      → AllTravel J S conv r n h (xs ++ ys)
      → AllTravel J S conv r n h xs
  AllTravel-prefix r n h [] ys t = tt
  AllTravel-prefix r n h (x ∷ xs) ys (t, ts) = (t, AllTravel-prefix r (n + 1) _ xs ys ts)

  pub AllTravel-at :
      (r : RemoteWorld) (n m : ℕ) (h : List (ℕ × Str)) (xs : List (Call J)) (c : Call J)
      (ys : List (Call J))
      → m ≡ n + length xs
      → AllTravel J S conv r n h (xs ++ c ∷ ys)
      → Travels J S conv r m (history h xs) c
  AllTravel-at r n m h [] c ys e (t, ts) = subst (λ k. Travels J S conv r k h c) (omega arith) t
  AllTravel-at r n m h (x ∷ xs) c ys e (t, ts) =
      AllTravel-at r (n + 1) m (h ++ mark J S conv x ∷ []) xs c ys (omega arith) ts
