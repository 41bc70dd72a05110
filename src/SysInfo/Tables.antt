-- ===== src/SysInfo/Tables.antt =====
-- The table of processors that `GetSysProcessorInfo` of src/runtime/sys_info.cpp fills on Windows.
use guthi_core.Base.{
  ℕ, suc, ◌+◌, ◌-◌, ◌<◌, ◌≤◌, ◌≡◌, refl, ◌∙◌, inl, inr, true, false, Option, none, some, List, [],
  ◌∷◌, arith, ltb, ◌==◌, if◌then◌else◌, Bool-cases, get_elem?, length, ◌⊎◌,
}
use guthi_core.Cpuinfo.Parse.{ProcessorInfo, ProcessorStatus}
use guthi_core.SysInfo.{
  PowerInformation, set_processor, fill_processors, no_processor, get_sys_processor_info_win32,
}
use guthi_core.Tracker.State.{ok, fault}

abbrev pub shown_of : PowerInformation → ProcessorInfo
shown_of i = record {
  processor_number = i.number;
  current_mhz = i.current_mhz;
  total_mhz = i.max_mhz;
}

abbrev pub shown_or : ProcessorInfo → Option PowerInformation → ProcessorInfo
shown_or p none = p
shown_or p (some i) = shown_of i

-- The entry at an index, of a list that is laid into a table from a place on.
abbrev pub entry : ℕ → List PowerInformation → ProcessorStatus → ℕ → ProcessorInfo
entry pro infos s n =
    if ltb n pro then s.processors n else shown_or (s.processors n) (get_elem? infos (n - pro))

entry-cons :
    (pro n : ℕ) (i : PowerInformation) (infos : List PowerInformation) (s : ProcessorStatus)
    → entry (suc pro) infos (set_processor pro i s) n ≡ entry pro (i ∷ infos) s n
entry-cons pro n i infos s = elim (Bool-cases (ltb n pro)) [
  | inl before ↦
      let before' : ltb n (suc pro) ≡ true = ground arith in
      let other : (n == pro) ≡ false = ground arith in rw (before, before', other) refl
  | inr behind ↦ elim (Bool-cases (n == pro)) [
    | inl same ↦
        let at : ltb n (suc pro) ≡ true = ground arith in
        let first : n - pro ≡ 0 = ground arith in rw (behind, at, same, first) refl
    | inr other ↦
        let behind' : ltb n (suc pro) ≡ false = ground arith in
        let next : n - pro ≡ suc (n - suc pro) = ground arith in
        rw (behind, behind', other, next) refl
  ]
]

entry-nil : (pro n : ℕ) (s : ProcessorStatus) → s.processors n ≡ entry pro [] s n
entry-nil pro n s = elim (Bool-cases (ltb n pro)) [ inl e ↦ rw e refl | inr e ↦ rw e refl ]

fill_processors-entry :
    (pro : ℕ) (infos : List PowerInformation) (s : ProcessorStatus)
    → pro + length infos ≤ 64
    → (s' : ProcessorStatus) × (fill_processors pro infos s ≡ ok s')
      × (s'.processor_count ≡ s.processor_count)
      × ((n : ℕ) → s'.processors n ≡ entry pro infos s n)
unfolding fill_processors
fill_processors-entry pro [] s l = (s, refl, refl, λ n. entry-nil pro n s)
fill_processors-entry pro (i ∷ infos) s l =
    let inside : ltb pro 64 ≡ true = ground arith in
    let (s', e, count, entries) =
      fill_processors-entry (suc pro) infos (set_processor pro i s) (omega arith) in
    (s', rw inside e, count, λ n. entries n ∙ entry-cons pro n i infos s)

fill_processors-fault :
    (pro : ℕ) (infos : List PowerInformation) (s : ProcessorStatus)
    → pro ≤ 64
    → 64 < pro + length infos
    → fill_processors pro infos s ≡ fault
unfolding fill_processors
fill_processors-fault pro [] s l m = absurd (omega arith)
fill_processors-fault pro (i ∷ infos) s l m = elim (Bool-cases (ltb pro 64)) [
  | inl e ↦
      rw e
        (fill_processors-fault (suc pro) infos (set_processor pro i s) (ground arith) (omega arith))
  | inr e ↦ rw e refl
]

abbrev pub entry_for : List PowerInformation → ℕ → ProcessorInfo
entry_for infos n = shown_or no_processor (get_elem? infos n)

entry_at_front :
    (infos : List PowerInformation) (n : ℕ)
    → entry 0 infos (record { processor_count = length infos; processors = λ i. no_processor }) n
      ≡ entry_for infos n
entry_at_front infos n =
    let behind : ltb n 0 ≡ false = ground arith in
    let same : n - 0 ≡ n = omega arith in rw (behind, same) refl

-- If the call to the system has succeeded, `GetSysProcessorInfo` on Windows gives the number of
-- processors and an entry for each, in their order, if there are at most 64; with more it writes
-- beyond its table.
pub get_sys_processor_info_win32-entries :
    (infos : List PowerInformation)
    → ((s : ProcessorStatus) × (get_sys_processor_info_win32 0 infos ≡ ok s)
        × (s.processor_count ≡ length infos)
        × ((n : ℕ) → s.processors n ≡ entry_for infos n)
        × (length infos ≤ 64))
      ⊎ ((get_sys_processor_info_win32 0 infos ≡ fault) × (64 < length infos))
unfolding get_sys_processor_info_win32
get_sys_processor_info_win32-entries infos =
    let empty : ProcessorStatus = record {
      processor_count = length infos;
      processors = λ n. no_processor;
    } in
    elim (Bool-cases (ltb 64 (length infos))) [
      | inl many ↦
          inr (fill_processors-fault 0 infos empty (omega arith) (ground arith), ground arith)
      | inr few ↦
          let (s, e, count, entries) = fill_processors-entry 0 infos empty (ground arith) in
          inl (s, e, count, λ n. entries n ∙ entry_at_front infos n, ground arith)
    ]
