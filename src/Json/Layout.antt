-- ===== src/Json/Layout.antt =====
-- What is documented of gjson's Index: the byte offset of the value in the body. So the strings of a
-- body stand in document order, none overlapping another, each as long as its Raw text.
use headroom_go.Common.{
  ℕ, ◌+◌, ◌≤◌, ◌≡◌, Bool-cases, inl, inr, List, [], ◌∷◌, Option, none, some, arith, Bytes, length,
  slice, text_eq,
}
use headroom_go.Json.{
  Json, Items, Fields, str, lit, arr, obj, nil, cons, end, field, items_list, find_field, member,
  elements,
}

module _ (body : Bytes) where
  unfoldable mutual
    -- The strings of a value stand in order between two positions of the body.
    pub Laid : ℕ → ℕ → Json → Type 0
    Laid lo hi (str index raw text) =
        (lo ≤ index)
        × (index + length raw ≤ hi)
        × (2 ≤ length raw)
        × (slice index (index + length raw) body ≡ raw)
    Laid lo hi (lit raw text) = lo ≤ hi
    Laid lo hi (arr raw xs) = LaidItems lo hi xs
    Laid lo hi (obj raw fs) = LaidFields lo hi fs

    pub LaidItems : ℕ → ℕ → Items → Type 0
    LaidItems lo hi nil = lo ≤ hi
    LaidItems lo hi (cons x xs) = (m : ℕ) × Laid lo m x × LaidItems m hi xs

    pub LaidFields : ℕ → ℕ → Fields → Type 0
    LaidFields lo hi end = lo ≤ hi
    LaidFields lo hi (field k v fs) = (m : ℕ) × Laid lo m v × LaidFields m hi fs

  mutual
    unfolding Laid LaidItems LaidFields

    pub Laid-wider :
        (lo lo' hi hi' : ℕ) (j : Json) → lo' ≤ lo → hi ≤ hi' → Laid lo hi j → Laid lo' hi' j
    Laid-wider lo lo' hi hi' (str index raw text) a b (p, q, r, s) =
        (omega arith, omega arith, r, s)
    Laid-wider lo lo' hi hi' (lit raw text) a b h = omega arith
    Laid-wider lo lo' hi hi' (arr raw xs) a b h = LaidItems-wider lo lo' hi hi' xs a b h
    Laid-wider lo lo' hi hi' (obj raw fs) a b h = LaidFields-wider lo lo' hi hi' fs a b h

    LaidItems-wider :
        (lo lo' hi hi' : ℕ) (xs : Items)
        → lo' ≤ lo
        → hi ≤ hi'
        → LaidItems lo hi xs
        → LaidItems lo' hi' xs
    LaidItems-wider lo lo' hi hi' nil a b h = omega arith
    LaidItems-wider lo lo' hi hi' (cons x xs) a b (m, p, q) = (
      m,
      Laid-wider lo lo' m m x a (omega arith) p,
      LaidItems-wider m m hi hi' xs (omega arith) b q,
    )

    LaidFields-wider :
        (lo lo' hi hi' : ℕ) (fs : Fields)
        → lo' ≤ lo
        → hi ≤ hi'
        → LaidFields lo hi fs
        → LaidFields lo' hi' fs
    LaidFields-wider lo lo' hi hi' end a b h = omega arith
    LaidFields-wider lo lo' hi hi' (field k v fs) a b (m, p, q) = (
      m,
      Laid-wider lo lo' m m v a (omega arith) p,
      LaidFields-wider m m hi hi' fs (omega arith) b q,
    )

  mutual
    unfolding Laid LaidItems LaidFields

    pub Laid-le : (lo hi : ℕ) (j : Json) → Laid lo hi j → lo ≤ hi
    Laid-le lo hi (str index raw text) h = omega arith
    Laid-le lo hi (lit raw text) h = h
    Laid-le lo hi (arr raw xs) h = LaidItems-le lo hi xs h
    Laid-le lo hi (obj raw fs) h = LaidFields-le lo hi fs h

    LaidItems-le : (lo hi : ℕ) (xs : Items) → LaidItems lo hi xs → lo ≤ hi
    LaidItems-le lo hi nil h = h
    LaidItems-le lo hi (cons x xs) (m, p, q) =
        omega (arith, Laid-le lo m x p, LaidItems-le m hi xs q)

    LaidFields-le : (lo hi : ℕ) (fs : Fields) → LaidFields lo hi fs → lo ≤ hi
    LaidFields-le lo hi end h = h
    LaidFields-le lo hi (field k v fs) (m, p, q) =
        omega (arith, Laid-le lo m v p, LaidFields-le m hi fs q)

  -- What may not exist is laid out too.
  abbrev pub LaidOption : ℕ → ℕ → Option Json → Type 0
  LaidOption lo hi none = lo ≤ hi
  LaidOption lo hi (some j) = Laid lo hi j

  abbrev pub LaidList : ℕ → ℕ → List Json → Type 0
  LaidList lo hi [] = lo ≤ hi
  LaidList lo hi (x ∷ xs) = (m : ℕ) × Laid lo m x × LaidList m hi xs

  pub LaidList-items :
      (lo hi : ℕ) (xs : Items) → LaidItems lo hi xs → LaidList lo hi (items_list xs)
  unfolding Laid items_list
  LaidList-items lo hi nil h = h
  LaidList-items lo hi (cons x xs) (m, p, q) = (m, p, LaidList-items m hi xs q)

  pub LaidList-le : (lo hi : ℕ) (xs : List Json) → LaidList lo hi xs → lo ≤ hi
  LaidList-le lo hi [] h = h
  LaidList-le lo hi (x ∷ xs) (m, p, q) = omega (arith, Laid-le lo m x p, LaidList-le m hi xs q)

  find_field-Laid :
      (key : Bytes) (lo hi : ℕ) (fs : Fields)
      → LaidFields lo hi fs
      → LaidOption lo hi (find_field key fs)
  unfolding Laid find_field
  find_field-Laid key lo hi end h = h
  find_field-Laid key lo hi (field k v fs) (m, p, q) = elim (Bool-cases (text_eq k key)) [
    | inl same ↦ rw same (Laid-wider lo lo m hi v (omega arith) (LaidFields-le m hi fs q) p)
    | inr other ↦ rw other (weaken (find_field key fs) (find_field-Laid key m hi fs q))
  ]
    where
      weaken : (o : Option Json) → LaidOption m hi o → LaidOption lo hi o
      weaken none h = omega (arith, Laid-le lo m v p)
      weaken (some j) h = Laid-wider m lo hi hi j (Laid-le lo m v p) (omega arith) h

  -- A member of a value stands within it.
  pub member-Laid :
      (key : Bytes) (lo hi : ℕ) (o : Option Json)
      → LaidOption lo hi o
      → LaidOption lo hi (member key o)
  unfolding Laid member
  member-Laid key lo hi none h = h
  member-Laid key lo hi (some (str index raw text)) h = omega arith
  member-Laid key lo hi (some (lit raw text)) h = h
  member-Laid key lo hi (some (arr raw xs)) h = LaidItems-le lo hi xs h
  member-Laid key lo hi (some (obj raw fs)) h = find_field-Laid key lo hi fs h

  pub elements-Laid :
      (lo hi : ℕ) (o : Option Json) (xs : List Json)
      → LaidOption lo hi o
      → elements o ≡ some xs
      → LaidList lo hi xs
  unfolding Laid elements
  elements-Laid lo hi none xs h e = absurd (ground (arith, e))
  elements-Laid lo hi (some (str index raw text)) xs h e = absurd (ground (arith, e))
  elements-Laid lo hi (some (lit raw text)) xs h e = absurd (ground (arith, e))
  elements-Laid lo hi (some (arr raw ys)) xs h e =
      let same : items_list ys ≡ xs = ground (arith, e) in rw (← same) (LaidList-items lo hi ys h)
  elements-Laid lo hi (some (obj raw fs)) xs h e = absurd (ground (arith, e))
