-- ===== src/Mail/Fetch/Newest.antt =====
-- Which messages `fetch_invoices` gives, and in which order.
use invoices_codex.Prelude.{
  ℕ, zero, suc, ◌≤◌, ◌≡◌, refl, ap, ◌∙◌, ◌⊎◌, ◌↔◌, inl, inr, true, some, List, [], ◌∷◌, ◌++◌, arith,
  In, All, length, append_nil, filter_sound, filter_complete, leb, eqb, Bool-cases,
}
use invoices_codex.Mail.Fetch.{
  MessageMeta, MailAdapter, FetchConfig, MailTools, insert_newest, newest_first, take_messages,
  is_matched, sort_key, matched_messages, newest_messages, fetch_invoices,
}

swapped : {A B C : Type 0} → A ⊎ (B ⊎ C) → B ⊎ (A ⊎ C)
swapped (inl a) = inr (inl a)
swapped (inr (inl b)) = inl b
swapped (inr (inr c)) = inr (inr c)

on_right : {A B C : Type 0} → A ⊎ B → (B → C) → A ⊎ C
on_right (inl a) f = inl a
on_right (inr b) f = inr (f b)

module _ (key : MessageMeta → ℕ) where
  -- No message is newer than one before it.
  abbrev pub IsNewestFirst : List MessageMeta → Type 0
  IsNewestFirst [] = Unit
  IsNewestFirst (x ∷ xs) = All (λ y. key y ≤ key x) xs × IsNewestFirst xs

  All-insert :
      (P : MessageMeta → Type 0) (m : MessageMeta) (xs : List MessageMeta)
      → P m
      → All P xs
      → All P (insert_newest key m xs)
  unfolding insert_newest
  All-insert P m [] pm h = (pm, tt)
  All-insert P m (x ∷ xs) pm h = elim (Bool-cases (leb (key x) (key m))) [
    | inl newer ↦ rw newer (pm, h)
    | inr older ↦ rw older (h.0, All-insert P m xs pm h.1)
  ]

  All-le :
      (a b : ℕ) (xs : List MessageMeta) → a ≤ b → All (λ y. key y ≤ a) xs → All (λ y. key y ≤ b) xs
  All-le a b [] le h = tt
  All-le a b (x ∷ xs) le h = (omega (arith, h.0), All-le a b xs le h.1)

  insert-IsNewestFirst :
      (m : MessageMeta) (xs : List MessageMeta)
      → IsNewestFirst xs
      → IsNewestFirst (insert_newest key m xs)
  unfolding insert_newest
  insert-IsNewestFirst m [] h = (tt, tt)
  insert-IsNewestFirst m (x ∷ xs) h = elim (Bool-cases (leb (key x) (key m))) [
    | inl newer ↦
        let le : key x ≤ key m = ground arith in
        rw newer ((le, All-le (key x) (key m) xs le h.0), h)
    | inr older ↦
        rw older
          (All-insert (λ y. key y ≤ key x) m xs (ground arith) h.0, insert-IsNewestFirst m xs h.1)
  ]

  newest_first-IsNewestFirst : (ms : List MessageMeta) → IsNewestFirst (newest_first key ms)
  unfolding newest_first
  newest_first-IsNewestFirst [] = tt
  newest_first-IsNewestFirst (m ∷ ms) =
      insert-IsNewestFirst m (newest_first key ms) (newest_first-IsNewestFirst ms)

  In-insert :
      (a m : MessageMeta) (xs : List MessageMeta) → In a (insert_newest key m xs) ↔ In a (m ∷ xs)
  unfolding insert_newest
  In-insert a m [] = (λ i. i, λ i. i)
  In-insert a m (x ∷ xs) = elim (Bool-cases (leb (key x) (key m))) [
    | inl newer ↦ rw newer (λ i. i, λ i. i)
    | inr older ↦
        let (to, from) = In-insert a m xs in
        rw older (λ i. swapped (on_right i to), λ i. on_right (swapped i) from)
  ]

  In-newest_first : (a : MessageMeta) (ms : List MessageMeta) → In a (newest_first key ms) ↔ In a ms
  unfolding newest_first
  In-newest_first a [] = (λ i. i, λ i. i)
  In-newest_first a (m ∷ ms) =
      let (to, from) = In-insert a m (newest_first key ms) in
      let (to', from') = In-newest_first a ms in
      (λ i. on_right (to i) to', λ i. from (on_right i from'))

  length-insert :
      (m : MessageMeta) (xs : List MessageMeta) → length (insert_newest key m xs) ≡ suc (length xs)
  unfolding insert_newest
  length-insert m [] = refl
  length-insert m (x ∷ xs) = ground (arith, length-insert m xs)

  length-newest_first : (ms : List MessageMeta) → length (newest_first key ms) ≡ length ms
  unfolding newest_first
  length-newest_first [] = refl
  length-newest_first (m ∷ ms) =
      length-insert m (newest_first key ms) ∙ ap suc (length-newest_first ms)

-- What a cut leaves out.
drop_messages : ℕ → List MessageMeta → List MessageMeta
drop_messages zero ms = ms
drop_messages (suc n) [] = []
drop_messages (suc n) (m ∷ ms) = drop_messages n ms

take-drop : (n : ℕ) (ms : List MessageMeta) → take_messages n ms ++ drop_messages n ms ≡ ms
unfolding take_messages drop_messages
take-drop zero ms = refl
take-drop (suc n) [] = refl
take-drop (suc n) (m ∷ ms) = ap (λ l. m ∷ l) (take-drop n ms)

length-take_le : (n : ℕ) (ms : List MessageMeta) → length (take_messages n ms) ≤ n
unfolding take_messages
length-take_le zero ms = omega arith
length-take_le (suc n) [] = omega arith
length-take_le (suc n) (m ∷ ms) = omega (arith, length-take_le n ms)

length-take :
    (n : ℕ) (ms : List MessageMeta) → (drop_messages n ms ≡ []) ⊎ (length (take_messages n ms) ≡ n)
unfolding take_messages drop_messages
length-take zero ms = inr refl
length-take (suc n) [] = inl refl
length-take (suc n) (m ∷ ms) = on_right (length-take n ms) (λ e. ap suc e)

-- The messages of a call, with those that the limit cut off.
pub record Fetched (tools : MailTools) (adapter : MailAdapter) (config : FetchConfig)
    (start end : ℕ) (result : List MessageMeta) : Type 0 where
  pub cut_off : List MessageMeta
  pub newest : IsNewestFirst (sort_key tools start) (result ++ cut_off)
  pub same_messages :
      (m : MessageMeta)
      → In m (result ++ cut_off)
        ↔ (In m adapter.messages × (is_matched tools adapter config start end m ≡ true))
  pub counted :
      length (result ++ cut_off) ≡ length (matched_messages tools adapter config start end)
  pub within : (config.max_messages ≡ 0) ⊎ (length result ≤ config.max_messages)
  pub full : (cut_off ≡ []) ⊎ (length result ≡ config.max_messages)

module _ (tools : MailTools) (adapter : MailAdapter) (config : FetchConfig) (start end : ℕ) where
  abbrev sorted : List MessageMeta
  sorted = newest_first (sort_key tools start) (matched_messages tools adapter config start end)

  same-sorted :
      (m : MessageMeta)
      → In m sorted ↔ (In m adapter.messages × (is_matched tools adapter config start end m ≡ true))
  same-sorted m =
      let (to, from) =
        In-newest_first (sort_key tools start) m
          (matched_messages tools adapter config start end) in
      let p = is_matched tools adapter config start end in
      (
        λ i. filter_sound p adapter.messages m (to i),
        λ i. from (filter_complete p adapter.messages m i.0 i.1),
      )

  -- A result and what was cut off, put together to the sorted messages.
  parts-Fetched :
      (result cut_off : List MessageMeta)
      → result ++ cut_off ≡ sorted
      → (config.max_messages ≡ 0) ⊎ (length result ≤ config.max_messages)
      → (cut_off ≡ []) ⊎ (length result ≡ config.max_messages)
      → Fetched tools adapter config start end result
  parts-Fetched result cut_off e within full =
      let matched = matched_messages tools adapter config start end in
      let key = sort_key tools start in
      record {
        cut_off = cut_off;
        newest = rw e (newest_first-IsNewestFirst key matched);
        same_messages = λ m. rw e (same-sorted m);
        counted = ap length e ∙ length-newest_first key matched;
        within = within;
        full = full;
      }

  newest_messages-Fetched :
      Fetched tools adapter config start end (newest_messages tools adapter config start end)
  newest_messages-Fetched =
      let n = config.max_messages in
      elim (Bool-cases (eqb n 0)) [
        | inl all ↦
            rw all (parts-Fetched sorted [] (append_nil sorted) (inl (ground arith)) (inl refl))
        | inr some_of ↦ rw some_of (
            parts-Fetched (take_messages n sorted) (drop_messages n sorted) (take-drop n sorted)
              (inr (length-take_le n sorted)) (length-take n sorted))
      ]

-- `fetch_invoices` gives messages of the adapter that meet the conditions, newest first and no more than the limit,
-- where it is not zero. Those that it leaves out do not meet the conditions, or the result is as long as the limit and
-- they are not newer than any message of it.
pub fetch_invoices-Fetched :
    (tools : MailTools) (adapter : MailAdapter) (config : FetchConfig) (start end : ℕ)
    (result : List MessageMeta)
    → tools.date_fromisoformat config.start_date ≡ some start
    → tools.date_fromisoformat config.end_date ≡ some end
    → fetch_invoices tools adapter config ≡ some result
    → Fetched tools adapter config start end result
unfolding fetch_invoices
fetch_invoices-Fetched tools adapter config start end result from to h =
    let e : newest_messages tools adapter config start end ≡ result = ground arith in
    rw (← e) (newest_messages-Fetched tools adapter config start end)
