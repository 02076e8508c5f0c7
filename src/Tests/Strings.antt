-- ===== src/Tests/Strings.antt =====
-- Searches in the text "abcb", and a copy of it into three bytes.
use cheriot_rtos.Base.{ℕ, suc, ◌+◌, ◌≤◌, ◌<◌, ◌≡◌, ◌≢◌, ◌⊎◌, refl, some, [], ◌∷◌, get_or}
use cheriot_rtos.Strings.{Memory, memchr, memrchr, strlcpy, strlen, strncmp, strnstr, strnstr_loop}
use cheriot_rtos.Strings.Bounds.{strlcpy_lem, strnstr_lem}

abbrev text : Memory
text i = get_or (97 ∷ 98 ∷ 99 ∷ 98 ∷ []) i 0

abbrev middle : Memory
middle i = get_or (98 ∷ 99 ∷ []) i 0

first_found : memchr text 98 4 0 ≡ some 1
unfolding memchr
first_found = refl

last_found : memrchr text 98 4 ≡ some 3
unfolding memrchr
last_found = refl

strlcpy_lem_example :
    let (dest', i) = strlcpy (λ j. 7) text (suc 2) in
    (i ≤ 2)
    × (dest' i ≡ 0)
    × ((j : ℕ) → j < i → (dest' j ≡ text j) × (text j ≢ 0))
    × ((i ≡ 2) ⊎ (text i ≡ 0))
    × ((j : ℕ) → i < j → dest' j ≡ 7)
strlcpy_lem_example = strlcpy_lem (λ j. 7) text 2

middle_found : strnstr 8 text middle 4 ≡ some 1
unfolding strnstr strlen strnstr_loop strncmp
middle_found = refl

strnstr_lem_example :
    (n : ℕ) × (strlen 8 middle 0 ≡ some n)
    × (1 + n < 4)
    × ((j : ℕ) → j < n → text (1 + j) ≡ middle j)
strnstr_lem_example = strnstr_lem 8 text middle 4 1 middle_found
