-- ===== src/Search/Times.antt =====
-- `in_time_windows` (app/search/times.py): the windows of the words for times of the day. A clock is in
-- seconds since midnight in Korea.
use ktb4_2nd_ai.Prelude.{
  ℕ, ◌+◌, ◌-◌, ◌*◌, ◌%◌, ◌<◌, ◌≡◌, Bool, false, ◌&&◌, ◌||◌, Option, none, some, List, [], ◌∷◌, ltb,
  leb, if◌then◌else◌, arith,
}

-- the words of `TIME_WINDOWS`
pub data TimeWord : Type 0 where
  breakfast morning lunch afternoon evening night dawn : TimeWord

-- `TIME_WINDOWS`, in hours
abbrev pub window : TimeWord → ℕ × ℕ
window breakfast = (6, 11)
window morning = (6, 12)
window lunch = (11, 14)
window afternoon = (14, 18)
window evening = (18, 22)
window night = (22, 6)
window dawn = (22, 6)

-- `_contains`
unfoldable pub contains : ℕ → ℕ → ℕ → Bool
contains start end clock =
    if ltb start end then leb start clock && ltb clock end else leb start clock || ltb clock end

abbrev pub hours : ℕ → ℕ
hours h = h * 3600

-- `in_time_windows`
unfoldable pub in_time_windows : Option ℕ → List TimeWord → Bool
unfolding contains
in_time_windows none ws = false
in_time_windows (some clock) [] = false
in_time_windows (some clock) (w ∷ ws) =
    contains (hours (window w).0) (hours (window w).1) clock || in_time_windows (some clock) ws

-- A clock is in a window exactly when it is later than its start by less than the window's length,
-- where the day begins again at midnight: also for windows that run past it.
pub contains-around :
    (start end clock : ℕ)
    → start < 86400
    → end < 86400
    → clock < 86400
    → contains start end clock ≡ (
        if ltb start end
        then ltb ((clock + 86400 - start) % 86400) (end - start)
        else ltb ((clock + 86400 - start) % 86400) (end + 86400 - start))
unfolding contains
contains-around start end clock a b c = ground arith
