-- ===== src/Room/Reaper/Packets.antt =====
-- What the reaper adds up, against the list of all counts.
use obelisk_sfu.Prelude.{
  ℕ, zero, List, [], ◌∷◌, ◌++◌, Option, none, some, ◌≡◌, ◌+◌, ◌∙◌, refl, sym, ap, arith,
}
use obelisk_sfu.Room.{Producer}
use obelisk_sfu.Room.Reaper.{Stats, count_packets, count_stats, total_packets}

abbrev pub given : List (Option ℕ) → List ℕ
given [] = []
given (none ∷ rest) = given rest
given (some n ∷ rest) = n ∷ given rest

abbrev counts : Option (List (Option ℕ)) → List ℕ
counts none = []
counts (some entries) = given entries

-- Every packet count of every producer that the statistics have.
abbrev pub all_counts : Stats → List Producer → List ℕ
all_counts stats [] = []
all_counts stats (q ∷ qs) = counts (stats q.id) ++ all_counts stats qs

abbrev pub sum : List ℕ → ℕ
sum [] = zero
sum (n ∷ ns) = n + sum ns

abbrev pub adds : Option ℕ → List ℕ → Option ℕ
adds total [] = total
adds none (n ∷ ns) = some (n + sum ns)
adds (some t) (n ∷ ns) = some (t + (n + sum ns))

adds_first :
    (total : Option ℕ) (n : ℕ) (ns : List ℕ) → adds total (n ∷ ns) ≡ adds (adds total (n ∷ [])) ns
adds_first none n [] = ap some (omega arith)
adds_first none n (x ∷ xs) = ap some (omega arith)
adds_first (some t) n [] = ap some (omega arith)
adds_first (some t) n (x ∷ xs) = ap some (omega arith)

adds-append : (total : Option ℕ) (xs ys : List ℕ) → adds total (xs ++ ys) ≡ adds (adds total xs) ys
adds-append total [] ys = refl
adds-append total (x ∷ xs) ys =
    adds_first total x (xs ++ ys)
    ∙ adds-append (adds total (x ∷ [])) xs ys
    ∙ ap (λ t. adds t ys) (sym (adds_first total x xs))

count_packets-adds :
    (total : Option ℕ) (entries : List (Option ℕ))
    → count_packets total entries ≡ adds total (given entries)
count_packets-adds total [] = refl
count_packets-adds total (none ∷ rest) = count_packets-adds total rest
count_packets-adds none (some n ∷ rest) =
    count_packets-adds (some n) rest
    ∙ ap (λ t. adds (some t) (given rest)) (omega arith)
    ∙ sym (adds_first none n (given rest))
count_packets-adds (some t) (some n ∷ rest) =
    count_packets-adds (some (t + n)) rest
    ∙ ap (λ x. adds (some x) (given rest)) (omega arith)
    ∙ sym (adds_first (some t) n (given rest))

count_stats-adds :
    (total : Option ℕ) (entries : Option (List (Option ℕ)))
    → count_stats total entries ≡ adds total (counts entries)
count_stats-adds total none = refl
count_stats-adds total (some entries) = count_packets-adds total entries

pub total_packets-adds :
    (stats : Stats) (total : Option ℕ) (qs : List Producer)
    → total_packets stats total qs ≡ adds total (all_counts stats qs)
unfolding total_packets
total_packets-adds stats total [] = refl
total_packets-adds stats total (q ∷ qs) =
    total_packets-adds stats (count_stats total (stats q.id)) qs
    ∙ ap (λ t. adds t (all_counts stats qs)) (count_stats-adds total (stats q.id))
    ∙ sym (adds-append total (counts (stats q.id)) (all_counts stats qs))
