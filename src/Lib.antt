-- ===== src/Lib.antt =====
-- A model of the buildpack for Java virtual machines, with the theorems that make it correct.
--
-- The buildpack chooses a Java version and contributes a JDK, a JRE and helper programs to an image.
-- The helpers run before the JVM starts and set its environment; the most important one calculates
-- the memory regions of the JVM from the memory of the container.
--
-- Base: numbers with the wrap-around of int32 and int64 (Base/Int), results with errors
-- (Base/Result), texts as lists of code points with the functions of strings, strconv, sort and
-- path/filepath that the program uses (Base/Text, Base/Sorting, Base/FilePath), files that are read
-- whole (Base/Files), and float64 as a parameter (Base/Float).
-- Calc: the package calc. Calc/Size is size.go, Calc/Flags the files of the five flags and
-- head_room.go, Calc/Regions is memory_regions.go, Calc/Calculator is calculator.go and
-- thread_count.go. A field of a region that is a pointer is an option; a panic on nil is an error.
-- Count: the package count. Count/Reader is header.go, offset.go and redirect.go, Count/Strings is
-- string.go, Count/Location is location.go, Count/Image is image.go, Count/Classes is
-- count_classes.go. A file is the list of its bytes, and the walk of a directory the list of what it
-- visits.
-- Helper: the package helper. Helper/Options has the helpers that add options (java_opts.go,
-- active_processor_count.go, jvm_heap_dump.go, debug_8.go, debug_9.go, jmx.go, jfr.go, nmt.go,
-- security_providers_classpath_8.go and _9.go), Helper/Providers is
-- security_providers_configurer.go, and Helper/Memory is memory_calculator.go: its limits
-- (Memory/Limits), its class count (Memory/ClassCount) and Execute. Execute calls the package count
-- for the classes and the package calc for the regions, as the model does.
-- Helper/Dns is link_local_dns.go and Helper/TrustStore is openssl_certificate_loader.go, which calls
-- the certificate loader of the root package. Helper/Providers/Recorded is about the providers that a
-- layer of the root package records for the configurer, and Helper/Launched is about the helpers in the
-- environment that the layers of the root package set.
-- Java: the root package. Java/Sdkman is sdkman.go, Java/Vendors is internal/vendors.go and detect.go,
-- Java/Version is jvm_version.go, Java/Plan is build.go with contributions.go and
-- distribution_type.go. The layers that a build contributes: Java/Layers has their types and metadata,
-- Java/Runtime the environment that jre.go, jdk.go and java_security_properties.go set up, Java/Jlink
-- is jlink.go and Java/Nik is nik.go. Java/Keystore is keystore.go: an interface with its two
-- implementations, which Java/Certificates, certificate_loader.go, takes as a parameter. Java/Manifest
-- is manifest.go, Java/Generate is generate.go, and Java/Programs has NewBuild of build.go with its
-- options, and what cmd/main/main.go and cmd/helper/main.go pass on. Java/Listing is maven_jar_listing.go: its goroutines are a step
-- relation, in which a value is handed over in one step. Versions is versions.go.
--
-- The environment of a process is a function from names to values. Parameters stand for code that is
-- not in the repository: float64, shellwords, sherpa (with its documented behaviour), semver, the
-- resolvers of libpak, the lower case of letters beyond ASCII, the packages for PEM, X.509, JKS, PKCS12,
-- zip, TOML and properties files, hashes, commands, and what the file system and the archives give.
--
-- Loops are recursions on the list that they go through. Three are on fuel: the loop that removes empty
-- providers has as many rounds as there are providers, since each round goes one place on or makes
-- the list one shorter; the loop over the attributes of a location has one round more than the bytes
-- that are left, since each round reads at least one; the loop over the PEM blocks of a file has one
-- round more than the file has bytes, since each block takes at least one.
--
-- Not modelled: what is logged, the texts of most errors, texts that are not valid UTF-8, the
-- libraries that call the entry points and decide whether a cached layer is kept, changes of the files
-- by others while a step runs, and the goroutines of the jar listing after it has returned.
pub mod Base
pub mod Calc
pub mod Count
pub mod Helper
pub mod Versions
pub mod Java
