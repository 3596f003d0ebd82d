-- ===== src/Strings/Tests.antt =====
-- Runs of the string functions, and the theorems at them.
use star_struck.Base.{ℕ, ◌≡◌, refl, inr, ◌-◌, [], ◌∷◌, take, ◌==◌, if◌then◌else◌, arith, ok}
use star_struck.Strings.Memory.{Memory}
use star_struck.Strings.Memset.{memset}
use star_struck.Strings.Compare.{
  strlen, strlen_from, strcmp, strncmp, strspn, span_from, is_in, strchr, strchr_from,
}
use star_struck.Strings.Copy.{memcpy, strncpy}
use star_struck.Strings.Fill.{fill}
use star_struck.Strings.Filled.{memset-fill}
use star_struck.Strings.Takes.{take_range}
use star_struck.Strings.Copied.{memcpy-copy}
use star_struck.Strings.Compared.{compare_strings, strcmp-compare_strings}
use star_struck.Strings.Overrun.{padded, strncpy-overrun}

-- The strings "ab" at 0x100 and "ac" at 0x200, and ones elsewhere.
abbrev memory : Memory
memory q =
    if q == 0x100
    then 97
    else if q == 0x101
    then 98
    else if q == 0x102
    then 0
    else if q == 0x200
    then 97
    else if q == 0x201
    then 99
    else if q == 0x202
    then 0
    else 1

memset-fill_example :
    memset memory 0x301 0x155 0x203 0x400 ≡ fill memory 0x301 (0x155 - 0x100) 0x203 0x400
memset-fill_example = memset-fill memory 0x301 0x155 0x203 (λ q. ground arith) 0x400

memcpy-copy_example :
    memcpy memory 0x300 0x100 0x37 0x301 ≡ take_range memory memory 0x300 0x100 0x37 0x301
memcpy-copy_example =
    memcpy-copy memory 0x300 0x100 0x37 (λ q. ground arith) (inr (omega arith)) 0x301

strcmp-compare_strings_example :
    (strcmp memory 0x100 0x200 ≡ ok (compare_strings (97 ∷ 98 ∷ []) (97 ∷ 99 ∷ [])))
    × ((n : ℕ)
        → strncmp memory 0x100 0x200 n
          ≡ compare_strings (take n (97 ∷ 98 ∷ [])) (take n (97 ∷ 99 ∷ [])))
strcmp-compare_strings_example =
    strcmp-compare_strings memory 0x100 0x200 (97 ∷ 98 ∷ []) (97 ∷ 99 ∷ [])
      (refl, omega arith, (refl, omega arith, refl)) (refl, omega arith, (refl, omega arith, refl))
      (omega arith)

-- The byte at 0x304 is behind the four bytes of the destination.
strncpy-overrun_example : strncpy memory 0x300 0x100 4 0x304 ≡ padded memory 0x300 0x100 2 3 0x304
strncpy-overrun_example =
    strncpy-overrun memory 0x300 0x100 4 (97 ∷ 98 ∷ []) (λ q. ground arith)
      (refl, omega arith, (refl, omega arith, refl)) (omega arith) (omega arith) (inr (omega arith))
      0x304

strlen_run : strlen memory 0x100 ≡ ok 2
unfolding strlen strlen_from
strlen_run = refl

strspn_run : strspn memory 0x100 0x200 ≡ ok 1
unfolding strspn span_from is_in
strspn_run = refl

strchr_run : strchr memory 0x100 98 ≡ ok 0x101
unfolding strchr strchr_from
strchr_run = refl
