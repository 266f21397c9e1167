-- ===== src/Lib.antt =====
-- The web reader of Kiyomi: the logic of its hooks and utilities, and what it guarantees.
--
-- Kiyomi serves a library of manga; its web application (web/src) lists the chapters of a manga,
-- opens them in a reader, saves the reading progress and merges metadata of several providers. The
-- hooks keep the state of the application, the utilities are pure functions over the records that
-- the server sends, and the client sends requests to the server. This library models these three:
--
--   Api               web/src/types/api.ts: the records that the server sends. Where the source has
--                     one field in two spellings, the second has the suffix `_camel`.
--   Samples           chapters, links and mangas for the examples.
--   ReadingCta        web/src/utils/readingCta.ts: which chapter the reading button opens.
--                     `get_reading_cta_info` is `getReadingCtaInfo`, cut at its early returns.
--   MetadataCompare   web/src/utils/metadataCompare.ts: comparing and merging texts and links. A loop
--                     is a function of its two variables, the record `Loop`.
--   ChapterSelection  web/src/components/chapter-list/hooks/useChapterSelection.ts: the selected rows.
--                     A handler is a function of the record `Selection`; `step` is one event.
--   ChapterFilters    web/src/components/chapter-list/hooks/useChapterFilters.ts: search, order, pages.
--   ReaderProgress    web/src/hooks/useReaderProgressTracker.ts: resuming, saving and marking as read.
--                     `commit` is one commit of React: the cleanup, then the effects whose
--                     dependencies changed, in their order; `run` is a sequence of events.
--   ReaderGesture     web/src/hooks/useReaderGesture.ts: turning pages by dragging, with the timers
--                     that run; `step` is one event.
--   ReaderKeyboard    web/src/hooks/useReaderKeyboard.ts: what a key does.
--   ReaderScroll      web/src/hooks/useReaderScrollTracker.ts and web/src/hooks/useReaderFitMode.ts:
--                     the page in view of a strip, and the stored fit mode.
--   ReadingHint       web/src/hooks/useReadingHint.ts: the hint that says how to turn pages, its timer
--                     and the session storage.
--   ImageUrls         `getProxyImageUrl` of web/src/lib/utils.ts and of web/src/utils/image.ts
--                     (`proxy_remote_image_url`): the addresses of images.
--   LibraryFilters    web/src/components/library/hooks/useLibraryFilters.ts: shelves, counts, filters
--                     and order of the library. `counts` is the record of the counts as a function of
--                     its keys.
--   QueryKeys         web/src/lib/queryKeys.ts and `shouldDehydrateQuery` of web/src/lib/persister.ts:
--                     the keys of the query cache, and which queries are kept offline.
--   Client            web/src/api/client.ts. A function of `api` is the request that it makes, in four
--                     children by the parts of the server; `fetch_api` is `fetchAPI` as a function of
--                     the answer. Api/Values has the JavaScript values of bodies and answers. Decoding
--                     and Paths say what a server reads in a path.
--   Hooks             web/src/api/hooks.ts and web/src/lib/queryOptions.ts: a query is its key, its
--                     request and its condition, a mutation its request and the keys that its success
--                     invalidates. A key makes those queries stale whose keys begin with it.
--   Toasts            web/src/context/ToastContext.tsx: messages and their timers; and the details that
--                     the callers of `showToast` take from an error, as `error_details`.
--   ChapterOperations web/src/components/details/hooks/useChapterOperations.ts: the set of the optimistic
--                     pulls, what each button sends, and its callbacks as lists of effects.
--   MetadataImport    web/src/components/import-metadata/hooks/useMetadataComparison.ts: the values of two
--                     mangas, their differences, the choices and what is saved.
--   DetailsManga      web/src/components/details/hooks/useDetailsManga.ts: the page of a manga, as functions
--                     of its address and of what its queries have answered.
--   JobsManager       web/src/components/settings/hooks/useJobsManager.ts: the list of background jobs,
--                     its counts and its buttons.
--   EditMetadata      web/src/components/hooks/useEditMetadataForm.ts: the form that edits a manga,
--                     from the values that it starts with to the body that is sent.
--   MetadataSearch    web/src/components/import-metadata/hooks/useMetadataSearch.ts: the search for a manga of
--                     a provider; what is asked, and what each answer does.
--   ReaderPage        web/src/routes/ReaderPage.tsx: what the reader shows, as functions of its address and
--                     of what its queries have answered. Navigation has the turns: the state is the page,
--                     the animation and the timers that run, in the order in which they were set, and any
--                     of them may be the next to fire. What the gesture hook, the scroll tracker and
--                     the restored page do to this state are events as well. Modes has the fields that the server reads of the
--                     request that chooses a mode, from internal/api/library_handler.go; Images has
--                     `getPageImageUrl` of web/src/lib/utils.ts.
--
-- The reader's hooks work on one page number: ReaderProgress keeps it and restores it at the page
-- that ReadingCta or the address names, ReaderGesture and ReaderKeyboard ask for the next or the
-- previous page, and ReaderProgress saves the page that was reached. ChapterFilters gives
-- ChapterSelection the rows that are shown. ChapterOperations goes through the mutations of Hooks, whose
-- requests are those of Client and whose keys are those of QueryKeys; MetadataImport compares by
-- MetadataCompare. DetailsManga gives ChapterOperations the chapters and the jobs, and the reading button
-- of ReadingCta its arguments; EditMetadata and JobsManager send requests of Client.
-- ReaderPage gives the reader's hooks their options.
--
-- Base holds what the components share: native numbers with their tests, integers, optional values
-- read by `??` and `||`, arrays, sets as lists without repetition, the stable sort and texts. Each
-- component has child modules with its theorems, and a module Tests with runs and examples.
--
-- Conventions. A JavaScript number is a natural number where the code only counts with it, and an
-- integer otherwise; chapter numbers are in thousandths, so that 10.5 is exact, and drags are in whole
-- pixels. Thresholds with fractions are multiplied out. A `Set` is a list that its operations keep
-- free of repetition, in insertion order. `Array.prototype.sort` is a stable insertion sort. All
-- loops run over lists; only the decimal text of a number runs on fuel, with one round more than
-- the number, which its digits never use up.
--
-- What JavaScript's library does is written out where the source calls it: `trim`, `includes`,
-- `startsWith`, `split`, `sort`, `String(n)`, `encodeURIComponent` and the form encoding of
-- `URLSearchParams` work on code points. `JSON.stringify` is not run: a body and the details of an
-- error are the value that it gets. An object has its own fields only, in their order.
--
-- Parameters: `String.prototype.toLowerCase` and `localeCompare` depend on the platform's locale data,
-- and `Date` on what the platform reads as a date. They are arguments; a theorem that needs something
-- of them names it as a hypothesis.
--
-- Not modelled: the server and the provider plugins (Go), markup and styling, and the query library.
-- When React renders is not modelled either: a theorem about events holds for every sequence of them,
-- or says which sequences it is about.
pub mod Base
pub mod Api
pub mod Samples
pub mod MetadataCompare
pub mod ReadingCta
pub mod ChapterSelection
pub mod DetailsManga
pub mod JobsManager
pub mod EditMetadata
pub mod ReaderPage
pub mod MetadataSearch
pub mod ChapterFilters
pub mod ReaderProgress
pub mod ReaderGesture
pub mod ReaderKeyboard
pub mod ReaderScroll
pub mod ReadingHint
pub mod ImageUrls
pub mod QueryKeys
pub mod Client
pub mod Toasts
pub mod Hooks
pub mod MetadataImport
pub mod ChapterOperations
pub mod LibraryFilters
